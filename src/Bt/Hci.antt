-- ===== src/Bt/Hci.antt =====
-- `hci_event_handler` of bt_main.c, and the HCI commands that the advertising task sends.
use hydroponic_closet.Bt.Codes.{
  h4_type_command, hci_change_local_name, hci_event, hci_evt_conn_req, hci_evt_pin_code_req,
  hci_packet, hci_reset, hci_set_scan_mode,
}
use hydroponic_closet.Prelude.{
  length, ℕ, ◌+◌, ◌/◌, ◌%◌, List, [], ◌∷◌, ◌++◌, length, ◌==◌, if◌then◌else◌,
}
use hydroponic_closet.Bt.Stream.{uint8_to_stream, uint16_to_stream, array_to_stream}
use hydroponic_closet.Bt.State.{Packet, Session}
use hydroponic_closet.Bt.Signal.{reply}

-- HCI_H4_CMD_PREAMBLE_SIZE
abbrev pub preamble_size : ℕ
preamble_size = 4

-- The pairing code, "1234".
abbrev pub pin : List ℕ
pin = b'1' ∷ b'2' ∷ b'3' ∷ b'4' ∷ []

-- for (i = 3; i < 9; i++) UINT8_TO_STREAM(buf, packet[i]);
abbrev pub device_address : Packet → List ℕ
device_address packet =
    uint8_to_stream (packet 3)
    ++ uint8_to_stream (packet 4)
    ++ uint8_to_stream (packet 5)
    ++ uint8_to_stream (packet 6)
    ++ uint8_to_stream (packet 7)
    ++ uint8_to_stream (packet 8)

-- The answer to a connection request: the opcode accepts (0x0009) or rejects (0x000a). The opcode
-- group is 0x01 << 10.
unfoldable pub conn_answer : ℕ → Packet → List ℕ
conn_answer opcode packet =
    uint8_to_stream ((preamble_size + 7) / 256)
    ++ uint8_to_stream ((preamble_size + 7) % 256)
    ++ uint8_to_stream (hci_packet h4_type_command)
    ++ uint16_to_stream opcode
    ++ uint8_to_stream 7
    ++ device_address packet
    ++ uint8_to_stream 1

-- The answer to a request for the pairing code.
unfoldable pub pin_answer : Packet → List ℕ
pin_answer packet =
    uint8_to_stream ((preamble_size + 23) / 256)
    ++ uint8_to_stream ((preamble_size + 23) % 256)
    ++ uint8_to_stream (hci_packet h4_type_command)
    ++ uint16_to_stream 0x040d
    ++ uint8_to_stream 23
    ++ device_address packet
    ++ uint8_to_stream (length pin)
    ++ pin

unfoldable pub hci_event_handler : Session → Packet → Session
hci_event_handler s packet =
    if packet 1 == hci_event hci_evt_conn_req
    then (if s.connected == 0
        then reply (conn_answer 0x0409 packet) s
        else reply (conn_answer 0x040a packet) s)
    else if packet 1 == hci_event hci_evt_pin_code_req
    then reply (pin_answer packet) s
    else s

-- make_cmd_reset
unfoldable pub make_cmd_reset : List ℕ
make_cmd_reset =
    uint8_to_stream (preamble_size / 256)
    ++ uint8_to_stream (preamble_size % 256)
    ++ uint8_to_stream (hci_packet h4_type_command)
    ++ uint16_to_stream hci_reset
    ++ uint8_to_stream 0

-- make_cmd_chanage_local_name
unfoldable pub make_cmd_change_local_name : List ℕ → List ℕ
make_cmd_change_local_name name =
    uint8_to_stream ((preamble_size + 248) / 256)
    ++ uint8_to_stream ((preamble_size + 248) % 256)
    ++ uint8_to_stream (hci_packet h4_type_command)
    ++ uint16_to_stream hci_change_local_name
    ++ uint8_to_stream 248
    ++ array_to_stream name (length name)

-- make_cmd_set_scan_mode
unfoldable pub make_cmd_set_scan_mode : ℕ → List ℕ
make_cmd_set_scan_mode scan_mode =
    uint8_to_stream ((preamble_size + 1) / 256)
    ++ uint8_to_stream ((preamble_size + 1) % 256)
    ++ uint8_to_stream (hci_packet h4_type_command)
    ++ uint16_to_stream hci_set_scan_mode
    ++ uint8_to_stream 1
    ++ uint8_to_stream scan_mode
