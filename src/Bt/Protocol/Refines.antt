-- ===== src/Bt/Protocol/Refines.antt =====
-- The signalling channel of `l2cap_cmd_handler` (blue/bt_main.c) keeps to the protocol.
use mathlib.Core.List.{append_assoc, append-nil}
use hydroponic_closet.Prelude.{
  ℕ, ◌+◌, ◌≡◌, refl, sym, ap, List, [], ◌∷◌, ◌++◌, map, Option, none, some, Bool-cases, inl, inr,
  u8, u16, ◌==◌, ◌&&◌, ltb, if◌then◌else◌, arith,
}
use hydroponic_closet.Bt.Codes.{
  l2cap_cmd, l2cap_cmd_conf_req, l2cap_cmd_conf_res, l2cap_cmd_conn_req, l2cap_cmd_disconn_req,
  l2cap_cmd_info_req,
}
use hydroponic_closet.Bt.Stream.{zeroed, overlay}
use hydroponic_closet.Bt.State.{Packet, Session, word, queue_packet}
use hydroponic_closet.Bt.Config.{
  conf_mtu, conf_mtu_efm, conf_efm_flow, conf_efm_ertm, conf_req, requested_mtu,
}
use hydroponic_closet.Bt.Signal.{
  info_features, info_channels, conn_res, conn_conf_ertm, conn_conf_basic, conf_done, disconn_res,
  reply, info_req, conn_req, is_obex, conf_req_case, l2cap_signal,
}
use hydroponic_closet.Bt.Framing.Signals.{low_word, high_word}
use hydroponic_closet.Bt.Protocol.{
  Channels, PeerRequest, Message, transfer_size, flow, granted_flow, answer_configuration,
  ask_configuration, respond,
}
use hydroponic_closet.Bt.Protocol.Wire.{
  Command, command_of, packet_bytes, entry, wanted, request_of,
}

abbrev pub channels_of : Session → Channels
channels_of s = record { peer = s.src_cid; next = s.dest_cid; obex = s.obex_cid; mtu = s.mtu }

-- The globals after the protocol's step: the channels are the new ones, and the messages stand in
-- the queue, in frames with the flags and the channel of the request.
abbrev pub after_step : Packet → Session → Channels × List Message → Session
after_step packet s (c, messages) = record s {
  src_cid = c.peer;
  dest_cid = c.next;
  obex_cid = c.obex;
  mtu = c.mtu;
  queued = s.queued ++ map (entry (u16 (word packet 2 1)) (u16 (word packet 8 7))) messages;
}

module _ (s : Session) (packet : Packet) where
  abbrev flags : ℕ
  flags = u16 (word packet 2 1)

  abbrev cid : ℕ
  cid = u16 (word packet 8 7)

  abbrev Refines : Session → PeerRequest → Type 0
  Refines t r = t ≡ after_step packet s (respond r (channels_of s))

  info_req-Refines : Refines (info_req s packet flags cid (packet 10)) (
      if packet 13 == 2
      then PeerRequest.features_request (u8 (packet 10))
      else if packet 13 == 3
      then PeerRequest.channels_request (u8 (packet 10))
      else PeerRequest.ignored)
  unfolding info_req info_features info_channels queue_packet
  info_req-Refines = elim (Bool-cases (packet 13 == 2)) [
    | inl e ↦ rw e refl
    | inr e ↦ elim (Bool-cases (packet 13 == 3)) [
      | inl f ↦ rw (e, f) refl
      | inr f ↦ rw (e, f) (ap (λ q. record s { queued = q }) (sym (append-nil s.queued)))
    ]
  ]

  conf_done-Refines :
      Refines
        (reply (conf_done flags cid (packet 10) s.src_cid) s)
        (PeerRequest.configuration_response (u8 (packet 10)))
  unfolding conf_done queue_packet
  conf_done-Refines = refl

  disconn_res-Refines :
      Refines
        (reply (disconn_res flags cid (packet 10) packet) s)
        (PeerRequest.disconnection_request (u8 (packet 10)) (word packet 14 13) (word packet 16 15))
  unfolding disconn_res queue_packet
  disconn_res-Refines = refl

  conn_req-Refines :
      Refines
        (conn_req s packet flags cid (packet 10))
        (PeerRequest.connection_request (u8 (packet 10)) (is_obex packet) (u16 (word packet 16 15)))
  unfolding conn_req conn_res conn_conf_ertm conn_conf_basic queue_packet
  conn_req-Refines = elim (Bool-cases (is_obex packet)) [
    | inl e ↦
        rw (e, next_identifier) (queued_twice (record opened { obex_cid = u8 s.dest_cid }) _ _)
    | inr e ↦ rw (e, next_identifier) (queued_twice opened _ _)
  ]
    where
      next_identifier : u8 (u8 (packet 10) + 1) ≡ u8 (packet 10 + 1)
      next_identifier = omega arith

      opened : Session
      opened = record s { src_cid = u16 (word packet 16 15); dest_cid = u16 (s.dest_cid + 1) }

      queued_twice :
          (t : Session) (x y : List ℕ)
          → record t { queued = (s.queued ++ x ∷ []) ++ y ∷ [] }
            ≡ record t { queued = s.queued ++ x ∷ y ∷ [] }
      queued_twice t x y =
          ap (λ q. record t { queued = q }) (append_assoc s.queued (x ∷ []) (y ∷ []))

  -- `conf_req` writes the words of the packet as they come.
  entry-u16 :
      (w v : ℕ) (c : Option Command)
      → overlay (packet_bytes w v c) zeroed.cells
        ≡ overlay (packet_bytes (u16 w) (u16 v) c) zeroed.cells
  entry-u16 w v none = refl
  entry-u16 w v (some c) = rw (← low_word w, ← high_word w, ← low_word v, ← high_word v) refl

  granted :
      (n : ℕ) (m : Message)
      → reply
          (packet_bytes (word packet 2 1) (word packet 8 7) (command_of m))
          (record s { mtu = n })
        ≡ record s { mtu = n; queued = s.queued ++ entry flags cid m ∷ [] }
  unfolding queue_packet
  granted n m =
      ap (λ b. record s { mtu = n; queued = s.queued ++ b ∷ [] })
        (entry-u16 (word packet 2 1) (word packet 8 7) (command_of m))

  conf_req-Refines :
      (len : ℕ)
      → Refines
          (conf_req_case s packet len)
          (PeerRequest.configuration_request (u8 (packet 10)) (wanted packet len))
  unfolding conf_req_case conf_req conf_mtu conf_mtu_efm conf_efm_flow conf_efm_ertm queue_packet
  conf_req-Refines len =
      let i = u8 (packet 10) in
      let n = requested_mtu packet in
      let peer = s.src_cid in
      elim (Bool-cases (packet 17 == 1 && ltb len 22)) [
        | inl e ↦ rw e (granted (u16 n) (answer_configuration i peer (transfer_size n ∷ [])))
        | inr e ↦ elim (Bool-cases (packet 17 == 1 && packet 21 == 4)) [
          | inl f ↦
              rw (e, f)
                (granted (u16 n)
                  (answer_configuration i peer (transfer_size (u16 n) ∷ flow granted_flow ∷ [])))
          | inr f ↦ elim (Bool-cases (packet 17 == 4 && packet 19 == 0)) [
            | inl g ↦
                rw (e, f, g) (granted 1024 (ask_configuration i peer (transfer_size 1024 ∷ [])))
            | inr g ↦ elim (Bool-cases (packet 17 == 4 && packet 19 == 3)) [
              | inl h ↦
                  rw (e, f, g, h)
                    (granted 1024
                      (ask_configuration i peer (transfer_size 1024 ∷ flow granted_flow ∷ [])))
              | inr h ↦ rw (e, f, g, h) refl
            ]
          ]
        ]
      ]

  -- Whatever command comes in on the signalling channel: the globals for the channels and the queue
  -- end up as the protocol says, the messages in complete frames behind what was queued before,
  -- and no other global changes.
  pub l2cap_signal-refines :
      (len : ℕ)
      → l2cap_signal s packet len
        ≡ after_step packet s (respond (request_of packet len) (channels_of s))
  unfolding l2cap_signal request_of
  l2cap_signal-refines len = elim (Bool-cases (packet 9 == l2cap_cmd l2cap_cmd_info_req)) [
    | inl e ↦ rw e info_req-Refines
    | inr e ↦ elim (Bool-cases (packet 9 == l2cap_cmd l2cap_cmd_conn_req)) [
      | inl f ↦ rw (e, f) conn_req-Refines
      | inr f ↦ elim (Bool-cases (packet 9 == l2cap_cmd l2cap_cmd_conf_req)) [
        | inl g ↦ rw (e, f, g) (conf_req-Refines len)
        | inr g ↦ elim (Bool-cases (packet 9 == l2cap_cmd l2cap_cmd_conf_res)) [
          | inl h ↦ rw (e, f, g, h) conf_done-Refines
          | inr h ↦ elim (Bool-cases (packet 9 == l2cap_cmd l2cap_cmd_disconn_req)) [
            | inl k ↦ rw (e, f, g, h, k) disconn_res-Refines
            | inr k ↦
                rw (e, f, g, h, k) (ap (λ q. record s { queued = q }) (sym (append-nil s.queued)))
          ]
        ]
      ]
    ]
  ]
