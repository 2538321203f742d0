-- ===== src/Bt/Sdp.antt =====
-- The service discovery branch of `l2cap_cmd_handler` (bt_main.c).
use hydroponic_closet.Bt.Codes.{h4_type_acl, hci_packet, sdp_att_req, sdp_type}
use hydroponic_closet.Prelude.{
  length, length, ℕ, ◌/◌, ◌%◌, List, [], ◌∷◌, ◌++◌, ◌&&◌, ◌||◌, u16, ◌==◌, if◌then◌else◌,
}
use hydroponic_closet.Bt.Stream.{uint8_to_stream, uint16_to_stream, array_to_stream}
use hydroponic_closet.Bt.State.{Packet, Session, word}
use hydroponic_closet.Bt.Signal.{reply}

-- The attribute list of the one service, OBEX object push.
abbrev pub obex_push : List ℕ
obex_push =
    0x35 ∷ 0x66 ∷ 0x35 ∷ 0x64 ∷ 0x09 ∷ 0x00 ∷ 0x00 ∷ 0x0a ∷ 0x00 ∷ 0x01 ∷ 0x00 ∷ 0x0e ∷ 0x09 ∷ 0x00
    ∷ 0x01 ∷ 0x35 ∷ 0x03 ∷ 0x19 ∷ 0x11 ∷ 0x05 ∷ 0x09 ∷ 0x00 ∷ 0x04 ∷ 0x35 ∷ 0x11 ∷ 0x35 ∷ 0x03
    ∷ 0x19 ∷ 0x01 ∷ 0x00 ∷ 0x35 ∷ 0x05 ∷ 0x19 ∷ 0x00 ∷ 0x03 ∷ 0x08 ∷ 0x09 ∷ 0x35 ∷ 0x03 ∷ 0x19
    ∷ 0x00 ∷ 0x08 ∷ 0x09 ∷ 0x00 ∷ 0x05 ∷ 0x35 ∷ 0x03 ∷ 0x19 ∷ 0x10 ∷ 0x02 ∷ 0x09 ∷ 0x00 ∷ 0x09
    ∷ 0x35 ∷ 0x08 ∷ 0x35 ∷ 0x06 ∷ 0x19 ∷ 0x11 ∷ 0x05 ∷ 0x09 ∷ 0x01 ∷ 0x02 ∷ 0x09 ∷ 0x01 ∷ 0x00
    ∷ 0x25 ∷ 0x0b ∷ 0x4f ∷ 0x62 ∷ 0x6a ∷ 0x65 ∷ 0x63 ∷ 0x74 ∷ 0x20 ∷ 0x50 ∷ 0x75 ∷ 0x73 ∷ 0x68
    ∷ 0x09 ∷ 0x02 ∷ 0x00 ∷ 0x09 ∷ 0x10 ∷ 0x09 ∷ 0x09 ∷ 0x03 ∷ 0x03 ∷ 0x35 ∷ 0x0e ∷ 0x08 ∷ 0x01
    ∷ 0x08 ∷ 0x02 ∷ 0x08 ∷ 0x03 ∷ 0x08 ∷ 0x04 ∷ 0x08 ∷ 0x05 ∷ 0x08 ∷ 0x06 ∷ 0x08 ∷ 0xff ∷ []

-- The attribute list of the device itself.
abbrev pub pnp : List ℕ
pnp =
    0x35 ∷ 0x36 ∷ 0x36 ∷ 0x00 ∷ 0x33 ∷ 0x09 ∷ 0x00 ∷ 0x00 ∷ 0x0a ∷ 0x00 ∷ 0x01 ∷ 0x00 ∷ 0x02 ∷ 0x09
    ∷ 0x00 ∷ 0x01 ∷ 0x35 ∷ 0x03 ∷ 0x19 ∷ 0x12 ∷ 0x00 ∷ 0x09 ∷ 0x02 ∷ 0x00 ∷ 0x09 ∷ 0x01 ∷ 0x03
    ∷ 0x09 ∷ 0x02 ∷ 0x01 ∷ 0x09 ∷ 0x00 ∷ 0x75 ∷ 0x09 ∷ 0x02 ∷ 0x02 ∷ 0x09 ∷ 0x01 ∷ 0x00 ∷ 0x09
    ∷ 0x02 ∷ 0x03 ∷ 0x09 ∷ 0x02 ∷ 0x01 ∷ 0x09 ∷ 0x02 ∷ 0x04 ∷ 0x28 ∷ 0x01 ∷ 0x09 ∷ 0x02 ∷ 0x05
    ∷ 0x09 ∷ 0x00 ∷ 0x01 ∷ []

-- The answer that offers OBEX.
unfoldable pub services : ℕ → ℕ → Packet → List ℕ
services acl_flags src_cid packet =
    uint8_to_stream (121 / 256)
    ++ uint8_to_stream (121 % 256)
    ++ uint8_to_stream (hci_packet h4_type_acl)
    ++ uint16_to_stream acl_flags
    ++ uint16_to_stream 116
    ++ uint16_to_stream 112
    ++ uint16_to_stream src_cid
    ++ uint8_to_stream 0x07
    ++ uint16_to_stream (word packet 11 10)
    ++ uint16_to_stream 0x6b00
    ++ uint16_to_stream 0x6800
    ++ array_to_stream obex_push (length obex_push)
    ++ uint8_to_stream 0

-- The answer that names the device.
unfoldable pub device_id : ℕ → ℕ → Packet → List ℕ
device_id acl_flags src_cid packet =
    uint8_to_stream (73 / 256)
    ++ uint8_to_stream (73 % 256)
    ++ uint8_to_stream (hci_packet h4_type_acl)
    ++ uint16_to_stream acl_flags
    ++ uint16_to_stream 68
    ++ uint16_to_stream 64
    ++ uint16_to_stream src_cid
    ++ uint8_to_stream 0x07
    ++ uint16_to_stream (word packet 11 10)
    ++ uint16_to_stream 0x3b00
    ++ uint16_to_stream 0x3800
    ++ array_to_stream pnp (length pnp)
    ++ uint8_to_stream 0

unfoldable pub sdp_request : Session → Packet → Session
sdp_request s packet =
    let acl_flags = u16 (word packet 2 1) in
    if packet 9 == sdp_type sdp_att_req
    then (if packet 17 == 0x01 && packet 18 == 0x00 || packet 17 == 0x11 && packet 18 == 0x05
        then reply (services acl_flags s.src_cid packet) s
        else if packet 17 == 0x12 && packet 18 == 0x00
        then reply (device_id acl_flags s.src_cid packet) s
        else s)
    else s
