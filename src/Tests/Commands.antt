-- ===== src/Tests/Commands.antt =====
-- The theorems on HCI commands and on service discovery at concrete inputs.
use hydroponic_closet.Prelude.{◌≡◌, true, false, [], ◌∷◌, ◌++◌, map, replicate}
use hydroponic_closet.Tests.Packets.{packet_of, acl_bytes, fresh, connect_request}
use hydroponic_closet.Bt.State.{Packet}
use hydroponic_closet.Bt.Advert.{tag, advert_start, bt_advt_task}
use hydroponic_closet.Bt.Advert.Order.{bt_advt_task_lem}
use hydroponic_closet.Bt.Transport.{payload}
use hydroponic_closet.Bt.Framing.Format.{command}
use hydroponic_closet.Bt.Handler.{serve}
use hydroponic_closet.Bt.Framing.Obex.{Returned}
use hydroponic_closet.Bt.Entry.Replies.{AddsEntries}
use hydroponic_closet.Bt.Entry.Queued.{serve-IsEntry}
use hydroponic_closet.Bt.Framing.Traffic.{Sound, serve-Sound}

-- A request for the pairing code from the device 01:02:03:04:05:06.
abbrev pub pin_request : Packet
pin_request = packet_of (4 ∷ 0x16 ∷ 6 ∷ 1 ∷ 2 ∷ 3 ∷ 4 ∷ 5 ∷ 6 ∷ [])

bt_advt_task_lem_example :
    map payload (bt_advt_task (false ∷ true ∷ true ∷ false ∷ []) advert_start).queued
    ≡ (1 ∷ 0x03 ∷ 0x0c ∷ 0 ∷ []) ∷ command 0x0c13 (tag ++ replicate 239 0) ∷ []
bt_advt_task_lem_example = bt_advt_task_lem (false ∷ true ∷ true ∷ false ∷ [])

-- A request for the attributes of L2CAP, 0x0100, with the number 0x0007.
abbrev attribute_request : Packet
attribute_request =
    packet_of (acl_bytes 0x40 (0x06 ∷ 0 ∷ 7 ∷ 0 ∷ 15 ∷ 0x35 ∷ 3 ∷ 0x19 ∷ 0x01 ∷ 0x00 ∷ []))

serve-Sound_example :
    Returned
      (Sound fresh)
      (serve fresh ((pin_request, 9) ∷ (connect_request, 17) ∷ (attribute_request, 45) ∷ []))
serve-Sound_example =
    serve-Sound ((pin_request, 9) ∷ (connect_request, 17) ∷ (attribute_request, 45) ∷ []) fresh

serve-IsEntry_example :
    Returned
      (AddsEntries fresh)
      (serve fresh ((pin_request, 9) ∷ (connect_request, 17) ∷ (attribute_request, 45) ∷ []))
serve-IsEntry_example =
    serve-IsEntry ((pin_request, 9) ∷ (connect_request, 17) ∷ (attribute_request, 45) ∷ []) fresh
