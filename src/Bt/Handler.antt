-- ===== src/Bt/Handler.antt =====
-- `obex_ftp`, `l2cap_cmd_handler`, `acl_event_handler` and `host_rcv_pkt` of bt_main.c.
use hydroponic_closet.Prelude.{
  ℕ, suc, ◌+◌, ◌/◌, ◌%◌, List, [], ◌∷◌, Bool, false, Option, none, some, bit_and, u16, ◌==◌,
  if◌then◌else◌,
}
use hydroponic_closet.Bt.Stream.{Buffer, zeroed, contents, rewind}
use hydroponic_closet.Bt.State.{Packet, Session, Outcome, done, overrun, hang, word, queue_packet}
use hydroponic_closet.Bt.Signal.{l2cap_signal}
use hydroponic_closet.Bt.Sdp.{sdp_request}
use hydroponic_closet.Bt.Obex.{write_ack, write_connect}
use hydroponic_closet.Bt.Put.{Header, PutEnd, finished, overflow, endless, put_loop}
use hydroponic_closet.Bt.Hci.{hci_event_handler}

-- The globals and the command buffer between the parts of `obex_ftp`.
pub record Partial : Type 0 where
  pub session : Session
  pub frame : Buffer

-- The locals of `obex_ftp` that the frames take from the packet.
abbrev pub header : Packet → Header
header packet = record {
  acl_flags = u16 (word packet 2 1);
  obex_reqseq = bit_and (packet 10) 0b00111111;
  obex_txseq = bit_and (packet 9) 0b01111110;
}

-- The acknowledgement after every eighth packet: it is queued at once, and the buffer is written
-- from its start again, not cleared.
unfoldable pub obex_ack : Header → Session → Option Partial
obex_ack h s =
    if (h.obex_txseq / 2 + 1) % 8 == 0
    then (elim (write_ack h.acl_flags s.src_cid (h.obex_txseq / 2 + 1) zeroed) [
      | none ↦ none
      | some b ↦ some (record { session = queue_packet (contents b) s; frame = rewind b })
    ])
    else some (record { session = s; frame = zeroed })

-- case 0x00: the answer to a connect is queued.
unfoldable pub obex_connect : Header → Partial → Outcome
obex_connect h t =
    elim (write_connect h.acl_flags t.session.src_cid t.session.obex_conn_id t.frame) [
      | none ↦ overrun
      | some b ↦ done (queue_packet (contents b) t.session)
    ]

-- if (send) queue_packet(cmd_buf);
unfoldable pub after_put : PutEnd → Outcome
after_put (finished p) =
    done (if p.send then queue_packet (contents p.frame) p.session else p.session)
after_put overflow = overrun
after_put endless = hang

-- case 0x02: the loop runs `len` rounds at most, unless it never ends.
unfoldable pub obex_put : Header → Packet → ℕ → Partial → Outcome
obex_put h packet len t = after_put (
    put_loop (suc len) h packet len
      (record { session = t.session; frame = t.frame; send = false; i = 14 }))

-- The `switch` for an I frame.
unfoldable pub obex_command : Header → Packet → ℕ → Partial → Outcome
obex_command h packet len t =
    if bit_and (packet 9) 1 == 0
    then (if bit_and (packet 11) 0b01111111 == 0x00
        then obex_connect h t
        else if bit_and (packet 11) 0b01111111 == 0x02
        then obex_put h packet len t
        else done t.session)
    else done t.session

unfoldable pub obex_ftp : Session → Packet → ℕ → Outcome
obex_ftp s packet len = elim (obex_ack (header packet) s) [
  | none ↦ overrun
  | some t ↦ obex_command (header packet) packet len t
]

unfoldable pub l2cap_cmd_handler : Session → Packet → ℕ → Outcome
l2cap_cmd_handler s packet len =
    if u16 (word packet 8 7) == 0x01
    then done (l2cap_signal s packet len)
    else if u16 (word packet 8 7) == s.obex_cid
    then obex_ftp s packet len
    else done (sdp_request s packet)

abbrev pub acl_event_handler : Session → Packet → ℕ → Outcome
acl_event_handler = l2cap_cmd_handler

-- The controller's callback: HCI packets and ACL packets, any other is dropped.
unfoldable pub host_rcv_pkt : Session → Packet → ℕ → Outcome
host_rcv_pkt s packet len =
    if packet 0 == 0x04
    then done (hci_event_handler s packet)
    else if packet 0 == 0x02
    then acl_event_handler s packet len
    else done s

-- DEBUG
abbrev pub debug : Bool
debug = false

-- The other callback: what it logs.
pub data Log : Type 0 where
  controller_received : Log

unfoldable pub controller_rcv_pkt_ready : List Log
controller_rcv_pkt_ready = if debug then controller_received ∷ [] else []

-- The packets of a connection, one after the other.
unfoldable pub serve : Session → List (Packet × ℕ) → Outcome
serve s [] = done s
serve s ((packet, len) ∷ rest) = elim (host_rcv_pkt s packet len) [
  | done t ↦ serve t rest
  | overrun ↦ overrun
  | hang ↦ hang
]
