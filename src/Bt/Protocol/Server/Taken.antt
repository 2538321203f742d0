-- ===== src/Bt/Protocol/Server/Taken.antt =====
-- `host_rcv_pkt` (blue/bt_main.c) takes one of the server's steps for each packet.
use mathlib.Core.List.{map-append}
use hydroponic_closet.Prelude.{
  ℕ, ◌≡◌, ◌≢◌, refl, ap, ◌∙◌, List, ◌++◌, ◌<◌, ◌⊎◌, map, length, arith, u16, inl, inr, bit_and,
  Bool-cases, ◌==◌,
}
use hydroponic_closet.Bt.State.{Packet, Session, Outcome, done, word, queue_packet}
use hydroponic_closet.Bt.Sdp.{sdp_request}
use hydroponic_closet.Bt.Hci.{hci_event_handler}
use hydroponic_closet.Bt.Handler.{host_rcv_pkt, l2cap_cmd_handler, obex_ftp}
use hydroponic_closet.Bt.Transport.{payload}
use hydroponic_closet.Bt.Receive.Object.{received_file}
use hydroponic_closet.Bt.Receive.Object.Whole.{obex_ftp-file}
use hydroponic_closet.Bt.Protocol.{Channels, Message, respond}
use hydroponic_closet.Bt.Protocol.Wire.{request_of}
use hydroponic_closet.Bt.Protocol.Refines.{channels_of, after_step, l2cap_signal-refines}
use hydroponic_closet.Bt.Protocol.Signalling.{signalled}
use hydroponic_closet.Bt.Protocol.Obex.Answers.{obex_ftp-answers}
use hydroponic_closet.Bt.Framing.Command
use hydroponic_closet.Bt.Framing.Command.{hci_event_handler_lem}
use hydroponic_closet.Bt.Receive.Room.{Fitting}
use hydroponic_closet.Bt.Protocol.Discovery.{found_records}
use hydroponic_closet.Bt.Protocol.Discovery.Answers.{sdp_request-answers}
use hydroponic_closet.Bt.Protocol.Server.Kept.{transfer-IsKept}
use hydroponic_closet.Bt.Protocol.Server.{
  Server, after_signal, after_transfer, step, IsRequest, elsewhere, transfer,
}

abbrev pub server_of : Session → Server
server_of s = record {
  channels = channels_of s;
  file = received_file s;
  connected = s.connected;
  identifier = s.obex_conn_id;
  sent = map payload s.queued;
}

server_eq :
    {v w : Server}
    → v.channels ≡ w.channels
    → v.file ≡ w.file
    → v.connected ≡ w.connected
    → v.identifier ≡ w.identifier
    → v.sent ≡ w.sent
    → v ≡ w
server_eq a b o c d = rw (a, b, o, c, d) refl

-- A handler has returned with the server's next state, and with arrays of the same lengths.
pub record Stepped (s : Session) (v : Server) (o : Outcome) : Type 0 where
  pub after : Session
  pub returns : o ≡ done after
  pub server : server_of after ≡ v
  pub name_length : length after.buffer_1 ≡ length s.buffer_1
  pub contents_length : length after.buffer_2 ≡ length s.buffer_2

signal_server :
    (s : Session) (packet : Packet) (x : Channels × List Message)
    → server_of (after_step packet s x) ≡ after_signal packet (server_of s) x
signal_server s packet (c, messages) =
    ap (λ l. record (server_of s) { channels = c; sent = l }) (map-append payload s.queued _)

module _ (s : Session) (packet : Packet) (len : ℕ) where
  abbrev next : Server
  next = step (server_of s) (packet, len)

  abbrev Takes : Server → Type 0
  Takes v = Stepped s v (host_rcv_pkt s packet len)

  signal-Stepped :
      packet 0 ≡ 0x02
      → u16 (word packet 8 7) ≡ 0x01
      → Takes (after_signal packet (server_of s) (respond (request_of packet len) (channels_of s)))
  signal-Stepped acl sig =
      let x = respond (request_of packet len) (channels_of s) in
      record {
        after = after_step packet s x;
        returns = signalled s packet len (acl, sig) ∙ ap done (l2cap_signal-refines s packet len);
        server = signal_server s packet x;
        name_length = refl;
        contents_length = refl;
      }

  -- A handler that changes the queue only.
  queued-Stepped :
      (t : Session) (frames : List (List ℕ))
      → host_rcv_pkt s packet len ≡ done t
      → t ≡ record s { queued = t.queued }
      → map payload t.queued ≡ map payload s.queued ++ frames
      → Takes (record (server_of s) { sent = map payload s.queued ++ frames })
  queued-Stepped t frames e same sent = record {
    after = t;
    returns = e;
    server = ap server_of same ∙ ap (λ l. record (server_of s) { sent = l }) sent;
    name_length = ap (λ (u : Session). length u.buffer_1) same;
    contents_length = ap (λ (u : Session). length u.buffer_2) same;
  }

  event-Stepped :
      packet 0 ≡ 0x04
      → Takes (record (server_of s) {
        sent = map payload s.queued ++ Command.answers s.connected packet;
      })
  unfolding host_rcv_pkt hci_event_handler queue_packet
  event-Stepped e =
      queued-Stepped (hci_event_handler s packet) _ (ground arith) (ground arith)
        (hci_event_handler_lem s packet)

  search-Stepped :
      packet 0 ≡ 0x02
      → u16 (word packet 8 7) ≢ 0x01
      → u16 (word packet 8 7) ≢ s.obex_cid
      → Takes
          (record (server_of s) { sent = map payload s.queued ++ found_records packet s.src_cid })
  unfolding host_rcv_pkt l2cap_cmd_handler sdp_request queue_packet
  search-Stepped acl other apart =
      queued-Stepped (sdp_request s packet) _ (ground arith) (ground arith)
        (sdp_request-answers s packet)

  unknown-Stepped : packet 0 ≢ 0x04 → packet 0 ≢ 0x02 → Takes (server_of s)
  unfolding host_rcv_pkt
  unknown-Stepped a b = record {
    after = s;
    returns = ground arith;
    server = refl;
    name_length = refl;
    contents_length = refl;
  }

  on_channel :
      packet 0 ≡ 0x02
      → u16 (word packet 8 7) ≢ 0x01
      → u16 (word packet 8 7) ≡ s.obex_cid
      → host_rcv_pkt s packet len ≡ obex_ftp s packet len
  unfolding host_rcv_pkt l2cap_cmd_handler
  on_channel acl other chosen = ground arith

  transfer-Stepped :
      packet 0 ≡ 0x02
      → u16 (word packet 8 7) ≢ 0x01
      → u16 (word packet 8 7) ≡ s.obex_cid
      → ((j : ℕ) → packet j < 256)
      → (bit_and (packet 11) 0b01111111 ≢ 2)
        ⊎ Fitting packet len (length s.buffer_1) (length s.buffer_2) 14 300
      → Takes (after_transfer packet len (server_of s))
  transfer-Stepped acl other chosen bytes fits =
      let (t, e, sent) = obex_ftp-answers s packet len fits in
      let back = on_channel acl other chosen ∙ e in
      let k = transfer-IsKept s t packet len other back in
      record {
        after = t;
        returns = back;
        server =
            server_eq k.channels (obex_ftp-file packet len bytes s t e) k.connected k.identifier
              sent;
        name_length = k.name_length;
        contents_length = k.contents_length;
      }

  -- The four tests of the callback.
  pub request-Stepped :
      IsRequest (length s.buffer_1) (length s.buffer_2) (server_of s) (packet, len) → Takes next
  request-Stepped r = elim (Bool-cases (packet 0 == 0x04)) [
    | inl a ↦ rw a (event-Stepped (ground arith))
    | inr a ↦ elim (Bool-cases (packet 0 == 0x02)) [
      | inr b ↦ rw (a, b) (unknown-Stepped (ground arith) (ground arith))
      | inl b ↦ elim (Bool-cases (u16 (word packet 8 7) == 0x01)) [
        | inl c ↦ rw (a, b, c) (signal-Stepped (ground arith) (ground arith))
        | inr c ↦ elim (Bool-cases (u16 (word packet 8 7) == s.obex_cid)) [
          | inr d ↦ rw (a, b, c, d) (search-Stepped (ground arith) (ground arith) (ground arith))
          | inl d ↦ rw (a, b, c, d) (on_transfer r (ground arith) (ground arith) (ground arith))
        ]
      ]
    ]
  ]
    where
      on_transfer :
          IsRequest (length s.buffer_1) (length s.buffer_2) (server_of s) (packet, len)
          → packet 0 ≡ 0x02
          → u16 (word packet 8 7) ≢ 0x01
          → u16 (word packet 8 7) ≡ s.obex_cid
          → Takes (after_transfer packet len (server_of s))
      on_transfer (elsewhere (inl x)) acl other chosen = elim (x acl) [ ]
      on_transfer (elsewhere (inr (inl x))) acl other chosen = elim (other x) [ ]
      on_transfer (elsewhere (inr (inr x))) acl other chosen = elim (x chosen) [ ]
      on_transfer (transfer a b c bytes fits) acl other chosen =
          transfer-Stepped acl other chosen bytes fits
