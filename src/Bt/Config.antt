-- ===== src/Bt/Config.antt =====
-- `conf_req` of bt_main.c: the answer to an L2CAP configuration request.
use hydroponic_closet.Bt.Codes.{h4_type_acl, hci_packet, l2cap_cmd, l2cap_cmd_conf_res}
use hydroponic_closet.Prelude.{
  length, ℕ, ◌+◌, ◌*◌, ◌/◌, ◌%◌, List, [], ◌∷◌, ◌++◌, ◌&&◌, u16, ltb, ◌==◌, if◌then◌else◌,
}
use hydroponic_closet.Bt.Stream.{uint8_to_stream, uint16_to_stream, array_to_stream}
use hydroponic_closet.Bt.State.{Packet, Session, word}

-- The MTU that the peer asks for.
abbrev pub requested_mtu : Packet → ℕ
requested_mtu packet = packet 20 * 256 + packet 19

-- Only an MTU request.
unfoldable pub conf_mtu : Session → Packet → List ℕ
conf_mtu s packet =
    uint8_to_stream (23 / 256)
    ++ uint8_to_stream (23 % 256)
    ++ uint8_to_stream (hci_packet h4_type_acl)
    ++ uint16_to_stream (word packet 2 1)
    ++ uint16_to_stream 18
    ++ uint16_to_stream 14
    ++ uint16_to_stream (word packet 8 7)
    ++ uint8_to_stream (l2cap_cmd l2cap_cmd_conf_res)
    ++ uint8_to_stream (packet 10)
    ++ uint16_to_stream 10
    ++ uint16_to_stream s.src_cid
    ++ uint16_to_stream 0
    ++ uint16_to_stream 0
    ++ uint8_to_stream 0x01
    ++ uint8_to_stream 0x02
    ++ uint16_to_stream (requested_mtu packet)

-- An MTU request and an extended feature mask. The MTU goes out as it was stored.
unfoldable pub conf_mtu_efm : Session → Packet → List ℕ
conf_mtu_efm s packet =
    uint8_to_stream (34 / 256)
    ++ uint8_to_stream (34 % 256)
    ++ uint8_to_stream (hci_packet h4_type_acl)
    ++ uint16_to_stream (word packet 2 1)
    ++ uint16_to_stream 29
    ++ uint16_to_stream 25
    ++ uint16_to_stream (word packet 8 7)
    ++ uint8_to_stream (l2cap_cmd l2cap_cmd_conf_res)
    ++ uint8_to_stream (packet 10)
    ++ uint16_to_stream 21
    ++ uint16_to_stream s.src_cid
    ++ uint16_to_stream 0
    ++ uint16_to_stream 0
    ++ uint8_to_stream 0x01
    ++ uint8_to_stream 0x02
    ++ uint16_to_stream (u16 (requested_mtu packet))
    ++ uint8_to_stream 0x04
    ++ uint8_to_stream 0x09
    ++ uint8_to_stream 0x03
    ++ uint8_to_stream 0x0a
    ++ uint8_to_stream 0x14
    ++ uint16_to_stream 2000
    ++ uint16_to_stream 12000
    ++ uint16_to_stream 1010

-- Only an extended feature mask, flow control mode.
unfoldable pub conf_efm_flow : Session → Packet → List ℕ
conf_efm_flow s packet =
    uint8_to_stream (21 / 256)
    ++ uint8_to_stream (21 % 256)
    ++ uint8_to_stream (hci_packet h4_type_acl)
    ++ uint16_to_stream (word packet 2 1)
    ++ uint16_to_stream 16
    ++ uint16_to_stream 12
    ++ uint16_to_stream (word packet 8 7)
    ++ uint8_to_stream 0x04
    ++ uint8_to_stream (packet 10)
    ++ uint16_to_stream 8
    ++ uint16_to_stream s.src_cid
    ++ uint16_to_stream 0
    ++ uint8_to_stream 0x01
    ++ uint8_to_stream 0x02
    ++ uint16_to_stream 1024

abbrev pub ertm : List ℕ
ertm = 0x04 ∷ 0x09 ∷ 0x03 ∷ 0x0a ∷ 0x14 ∷ 0xd0 ∷ 0x07 ∷ 0xe0 ∷ 0x2e ∷ 0xf2 ∷ 0x03 ∷ []

-- Only an extended feature mask, retransmission and flow control mode.
unfoldable pub conf_efm_ertm : Session → Packet → List ℕ
conf_efm_ertm s packet =
    uint8_to_stream (32 / 256)
    ++ uint8_to_stream (32 % 256)
    ++ uint8_to_stream (hci_packet h4_type_acl)
    ++ uint16_to_stream (word packet 2 1)
    ++ uint16_to_stream 27
    ++ uint16_to_stream 23
    ++ uint16_to_stream (word packet 8 7)
    ++ uint8_to_stream 0x04
    ++ uint8_to_stream (packet 10)
    ++ uint16_to_stream 19
    ++ uint16_to_stream s.src_cid
    ++ uint16_to_stream 0
    ++ uint8_to_stream 0x01
    ++ uint8_to_stream 0x02
    ++ uint16_to_stream 1024
    ++ array_to_stream ertm (length ertm)

-- The new globals and the bytes that are written. Any other request writes nothing.
unfoldable pub conf_req : Session → Packet → ℕ → Session × List ℕ
conf_req s packet len =
    if packet 17 == 0x01 && ltb len 22
    then (record s { mtu = u16 (requested_mtu packet) }, conf_mtu s packet)
    else if packet 17 == 0x01 && packet 21 == 0x04
    then (record s { mtu = u16 (requested_mtu packet) }, conf_mtu_efm s packet)
    else if packet 17 == 0x04 && packet 19 == 0x00
    then (record s { mtu = 1024 }, conf_efm_flow s packet)
    else if packet 17 == 0x04 && packet 19 == 0x03
    then (record s { mtu = 1024 }, conf_efm_ertm s packet)
    else (s, [])
