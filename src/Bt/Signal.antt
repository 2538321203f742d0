-- ===== src/Bt/Signal.antt =====
-- The L2CAP signalling channel of `l2cap_cmd_handler` (bt_main.c): one function for the packet of
-- each case, and the `switch` over the command.
use hydroponic_closet.Bt.Codes.{
  h4_type_acl, hci_packet, l2cap_cmd, l2cap_cmd_conf_req, l2cap_cmd_conf_res, l2cap_cmd_conn_req,
  l2cap_cmd_disconn_req, l2cap_cmd_info_req,
}
use hydroponic_closet.Prelude.{
  ℕ, ◌+◌, ◌/◌, ◌%◌, List, ◌++◌, Bool, ◌&&◌, u8, u16, ◌==◌, if◌then◌else◌,
}
use hydroponic_closet.Bt.Stream.{uint8_to_stream, uint16_to_stream, zeroed, overlay}
use hydroponic_closet.Bt.State.{Packet, Session, word, queue_packet}
use hydroponic_closet.Bt.Config.{conf_req}

-- The supported features.
unfoldable pub info_features : ℕ → ℕ → ℕ → List ℕ
info_features acl_flags sig_channel identifier =
    uint8_to_stream (21 / 256)
    ++ uint8_to_stream (21 % 256)
    ++ uint8_to_stream (hci_packet h4_type_acl)
    ++ uint16_to_stream acl_flags
    ++ uint16_to_stream 16
    ++ uint16_to_stream 12
    ++ uint16_to_stream sig_channel
    ++ uint8_to_stream 0x0b
    ++ uint8_to_stream identifier
    ++ uint16_to_stream 8
    ++ uint16_to_stream 0x02
    ++ uint16_to_stream 0
    ++ uint16_to_stream 0x02b8
    ++ uint16_to_stream 0

-- The fixed channels: only the signalling channel.
unfoldable pub info_channels : ℕ → ℕ → ℕ → List ℕ
info_channels acl_flags sig_channel identifier =
    uint8_to_stream (25 / 256)
    ++ uint8_to_stream (25 % 256)
    ++ uint8_to_stream (hci_packet h4_type_acl)
    ++ uint16_to_stream acl_flags
    ++ uint16_to_stream 20
    ++ uint16_to_stream 16
    ++ uint16_to_stream sig_channel
    ++ uint8_to_stream 0x0b
    ++ uint8_to_stream identifier
    ++ uint16_to_stream 12
    ++ uint16_to_stream 0x0003
    ++ uint16_to_stream 0
    ++ uint16_to_stream 0x86
    ++ uint16_to_stream 0
    ++ uint16_to_stream 0
    ++ uint16_to_stream 0

-- A connection is accepted on the channel `dest_cid`.
unfoldable pub conn_res : ℕ → ℕ → ℕ → ℕ → ℕ → List ℕ
conn_res acl_flags sig_channel identifier dest_cid src_cid =
    uint8_to_stream (21 / 256)
    ++ uint8_to_stream (21 % 256)
    ++ uint8_to_stream (hci_packet h4_type_acl)
    ++ uint16_to_stream acl_flags
    ++ uint16_to_stream 16
    ++ uint16_to_stream 12
    ++ uint16_to_stream sig_channel
    ++ uint8_to_stream 0x03
    ++ uint8_to_stream identifier
    ++ uint16_to_stream 8
    ++ uint16_to_stream dest_cid
    ++ uint16_to_stream src_cid
    ++ uint16_to_stream 0
    ++ uint16_to_stream 0

-- The configuration that follows for OBEX: retransmission mode.
unfoldable pub conn_conf_ertm : ℕ → ℕ → ℕ → ℕ → List ℕ
conn_conf_ertm acl_flags sig_channel identifier src_cid =
    uint8_to_stream (28 / 256)
    ++ uint8_to_stream (28 % 256)
    ++ uint8_to_stream (hci_packet h4_type_acl)
    ++ uint16_to_stream acl_flags
    ++ uint16_to_stream 23
    ++ uint16_to_stream 19
    ++ uint16_to_stream sig_channel
    ++ uint8_to_stream 0x04
    ++ uint8_to_stream (identifier + 1)
    ++ uint16_to_stream 15
    ++ uint16_to_stream src_cid
    ++ uint16_to_stream 0
    ++ uint8_to_stream 0x04
    ++ uint8_to_stream 0x09
    ++ uint8_to_stream 0x03
    ++ uint8_to_stream 63
    ++ uint8_to_stream 3
    ++ uint16_to_stream 2000
    ++ uint16_to_stream 12000
    ++ uint16_to_stream 1012

-- The configuration that follows for any other service: basic mode.
unfoldable pub conn_conf_basic : ℕ → ℕ → ℕ → ℕ → List ℕ
conn_conf_basic acl_flags sig_channel identifier src_cid =
    uint8_to_stream (28 / 256)
    ++ uint8_to_stream (28 % 256)
    ++ uint8_to_stream (hci_packet h4_type_acl)
    ++ uint16_to_stream acl_flags
    ++ uint16_to_stream 23
    ++ uint16_to_stream 19
    ++ uint16_to_stream sig_channel
    ++ uint8_to_stream 0x04
    ++ uint8_to_stream (identifier + 1)
    ++ uint16_to_stream 15
    ++ uint16_to_stream src_cid
    ++ uint16_to_stream 0
    ++ uint8_to_stream 4
    ++ uint8_to_stream 9
    ++ uint16_to_stream 0
    ++ uint16_to_stream 0
    ++ uint16_to_stream 0
    ++ uint16_to_stream 0
    ++ uint8_to_stream 0

-- The answer to a configuration response.
unfoldable pub conf_done : ℕ → ℕ → ℕ → ℕ → List ℕ
conf_done acl_flags sig_channel identifier src_cid =
    uint8_to_stream (19 / 256)
    ++ uint8_to_stream (19 % 256)
    ++ uint8_to_stream (hci_packet h4_type_acl)
    ++ uint16_to_stream acl_flags
    ++ uint16_to_stream 14
    ++ uint16_to_stream 10
    ++ uint16_to_stream sig_channel
    ++ uint8_to_stream 0x05
    ++ uint8_to_stream identifier
    ++ uint16_to_stream 6
    ++ uint16_to_stream src_cid
    ++ uint16_to_stream 0
    ++ uint16_to_stream 0

-- The answer to a disconnection request.
unfoldable pub disconn_res : ℕ → ℕ → ℕ → Packet → List ℕ
disconn_res acl_flags sig_channel identifier packet =
    uint8_to_stream (17 / 256)
    ++ uint8_to_stream (17 % 256)
    ++ uint8_to_stream (hci_packet h4_type_acl)
    ++ uint16_to_stream acl_flags
    ++ uint16_to_stream 12
    ++ uint16_to_stream 8
    ++ uint16_to_stream sig_channel
    ++ uint8_to_stream 0x07
    ++ uint8_to_stream identifier
    ++ uint16_to_stream 4
    ++ uint16_to_stream (word packet 14 13)
    ++ uint16_to_stream (word packet 16 15)

-- Queues a packet that was written to a cleared command buffer.
abbrev pub reply : List ℕ → Session → Session
reply bs s = queue_packet (overlay bs zeroed.cells) s

-- case L2CAP_CMD_INFO_REQ
unfoldable pub info_req : Session → Packet → ℕ → ℕ → ℕ → Session
info_req s packet acl_flags sig_channel identifier =
    if packet 13 == 0x02
    then reply (info_features acl_flags sig_channel identifier) s
    else if packet 13 == 0x03
    then reply (info_channels acl_flags sig_channel identifier) s
    else s

-- The service that the peer asks for is OBEXObjectPush, 0x1009 here.
abbrev pub is_obex : Packet → Bool
is_obex packet = packet 13 == 0x09 && packet 14 == 0x10

-- case L2CAP_CMD_CONN_REQ. `obex_cid` is a uint8_t and `dest_cid` a uint16_t.
unfoldable pub conn_req : Session → Packet → ℕ → ℕ → ℕ → Session
conn_req s packet acl_flags sig_channel identifier =
    let src = u16 (word packet 16 15) in
    let t =
      reply (conn_res acl_flags sig_channel identifier s.dest_cid src)
        (record s { src_cid = src }) in
    let u =
      if is_obex packet
      then reply (conn_conf_ertm acl_flags sig_channel identifier src)
          (record t { obex_cid = u8 s.dest_cid })
      else reply (conn_conf_basic acl_flags sig_channel identifier src) t in
    record u { dest_cid = u16 (u.dest_cid + 1) }

-- case L2CAP_CMD_CONF_REQ: what was written is queued, also if it is nothing.
unfoldable pub conf_req_case : Session → Packet → ℕ → Session
conf_req_case s packet len = let (t, bs) = conf_req s packet len in reply bs t

-- The `switch` over the command.
unfoldable pub l2cap_signal : Session → Packet → ℕ → Session
l2cap_signal s packet len =
    let acl_flags = u16 (word packet 2 1) in
    let sig_channel = u16 (word packet 8 7) in
    let command = packet 9 in
    let identifier = packet 10 in
    if command == l2cap_cmd l2cap_cmd_info_req
    then info_req s packet acl_flags sig_channel identifier
    else if command == l2cap_cmd l2cap_cmd_conn_req
    then conn_req s packet acl_flags sig_channel identifier
    else if command == l2cap_cmd l2cap_cmd_conf_req
    then conf_req_case s packet len
    else if command == l2cap_cmd l2cap_cmd_conf_res
    then reply (conf_done acl_flags sig_channel identifier s.src_cid) s
    else if command == l2cap_cmd l2cap_cmd_disconn_req
    then reply (disconn_res acl_flags sig_channel identifier packet) s
    else s
