-- ===== src/Bt/Receive/Open.antt =====
-- The channel on which `obex_ftp` (blue/bt_main.c) gets its packets stays, until a request for a new
-- one.
use hydroponic_closet.Prelude.{ℕ, ◌≡◌, false, Bool, List, [], ◌∷◌, ◌&&◌, ◌==◌, arith, u16, All}
use hydroponic_closet.Bt.State.{Packet, Session, word, queue_packet}
use hydroponic_closet.Bt.Codes.{l2cap_cmd_conn_req, l2cap_cmd}
use hydroponic_closet.Bt.Config.{conf_req}
use hydroponic_closet.Bt.Signal.{is_obex, info_req, conn_req, conf_req_case, l2cap_signal}
use hydroponic_closet.Bt.Put.{put_name, put_size, put_body}
use hydroponic_closet.Bt.Handler.{serve}
use hydroponic_closet.Bt.Framing.Obex.{Returned}
use hydroponic_closet.Bt.Receive.Stable.{IsStable, serve-kept}

-- A request for a new OBEX channel.
abbrev pub is_obex_request : Packet → Bool
is_obex_request packet =
    packet 0 == 0x02
    && u16 (word packet 8 7) == 0x01
    && packet 9 == l2cap_cmd l2cap_cmd_conn_req
    && is_obex packet

abbrev pub IsOpen : ℕ → Session → Type 0
IsOpen cid s = s.obex_cid ≡ cid

-- No request for a new OBEX channel is among the packets.
abbrev pub NoneRequests : List (Packet × ℕ) → Type 0
NoneRequests = All (λ x. is_obex_request x.0 ≡ false)

module _ (cid : ℕ) where
  IsOpen-IsStable :
      (packet : Packet) → is_obex_request packet ≡ false → IsStable (IsOpen cid) packet
  unfolding put_name put_size put_body queue_packet l2cap_signal info_req conn_req conf_req_case
      conf_req
  IsOpen-IsStable packet other = record {
    queue = λ bs s k. k;
    name = λ p q k e. ground arith;
    size = λ p k. k;
    body = λ p q k e. ground arith;
    signal = λ s len acl sig k. ground arith;
  }

  packets-IsStable :
      (packets : List (Packet × ℕ))
      → NoneRequests packets
      → All (λ x. IsStable (IsOpen cid) x.0) packets
  packets-IsStable [] h = tt
  packets-IsStable ((packet, len) ∷ rest) h =
      (IsOpen-IsStable packet h.0, packets-IsStable rest h.1)

  pub serve-IsOpen :
      (packets : List (Packet × ℕ)) (s : Session)
      → NoneRequests packets
      → IsOpen cid s
      → Returned (IsOpen cid) (serve s packets)
  serve-IsOpen packets s others =
      serve-kept (IsOpen cid) packets s (packets-IsStable packets others)
