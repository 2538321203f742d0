-- ===== src/Bt/Receive/Connection.antt =====
-- When the controller's callback returns from all packets of a connection.
use hydroponic_closet.Prelude.{
  ℕ, ◌≡◌, ◌≢◌, ◌⊎◌, inl, inr, refl, List, [], ◌∷◌, All, length, arith, if_both, ◌==◌, bit_and, u16,
}
use hydroponic_closet.Bt.State.{Packet, Session, done, word, queue_packet}
use hydroponic_closet.Bt.Config.{conf_req}
use hydroponic_closet.Bt.Signal.{info_req, conn_req, conf_req_case, l2cap_signal}
use hydroponic_closet.Bt.Sdp.{sdp_request}
use hydroponic_closet.Bt.Hci.{hci_event_handler}
use hydroponic_closet.Bt.Receive.Room.{Fitting}
use hydroponic_closet.Bt.Receive.Returns.{SameSizes, Returns, obex_ftp-Returns}
use hydroponic_closet.Bt.Handler.{obex_ftp, l2cap_cmd_handler, host_rcv_pkt, serve}

module _ (s : Session) (packet : Packet) (len : ℕ) where
  l2cap_signal-SameSizes : SameSizes s (l2cap_signal s packet len)
  unfolding l2cap_signal info_req conn_req conf_req_case conf_req queue_packet
  l2cap_signal-SameSizes = ground arith

  sdp_request-SameSizes : SameSizes s (sdp_request s packet)
  unfolding sdp_request queue_packet
  sdp_request-SameSizes = ground arith

  hci_event_handler-SameSizes : SameSizes s (hci_event_handler s packet)
  unfolding hci_event_handler queue_packet
  hci_event_handler-SameSizes = ground arith

-- A packet that is no PUT, for its kind, its channel or its command, or one whose headers fit into
-- arrays of `n1` and `n2` bytes.
abbrev pub IsHarmless : ℕ → ℕ → Packet × ℕ → Type 0
IsHarmless n1 n2 (packet, len) =
    (packet 0 ≢ 2)
    ⊎ (u16 (word packet 8 7) ≡ 1)
    ⊎ (bit_and (packet 11) 0b01111111 ≢ 2)
    ⊎ Fitting packet len n1 n2 14 300

module _ (s : Session) (packet : Packet) (len : ℕ) where
  obex_case :
      IsHarmless (length s.buffer_1) (length s.buffer_2) (packet, len)
      → packet 0 ≡ 2
      → u16 (word packet 8 7) ≢ 1
      → Returns s (obex_ftp s packet len)
  obex_case (inl n) acl no_signal = absurd (n acl)
  obex_case (inr (inl n)) acl no_signal = absurd (no_signal n)
  obex_case (inr (inr h)) acl no_signal = obex_ftp-Returns s packet len h

  host_rcv_pkt-Returns :
      IsHarmless (length s.buffer_1) (length s.buffer_2) (packet, len)
      → Returns s (host_rcv_pkt s packet len)
  unfolding Returns host_rcv_pkt l2cap_cmd_handler
  host_rcv_pkt-Returns h =
      let R = Returns s in
      if_both R (packet 0 == 4) (λ _. (_, refl, hci_event_handler-SameSizes s packet len))
        (λ _.
          if_both R (packet 0 == 2)
            (λ acl.
              if_both R (u16 (word packet 8 7) == 1)
                (λ _. (_, refl, l2cap_signal-SameSizes s packet len))
                (λ other.
                  if_both R (u16 (word packet 8 7) == s.obex_cid)
                    (λ _. obex_case h (ground arith) (ground arith))
                    (λ _. (_, refl, sdp_request-SameSizes s packet len))))
            (λ _. (_, refl, record { name_size = refl; contents_size = refl })))

-- If each packet of a connection is no PUT, or a PUT whose headers form a chain of known headers
-- with room in the caller's arrays and in the command buffer, the callback returns from all of
-- them.
pub serve-done :
    (packets : List (Packet × ℕ)) (s : Session)
    → All (IsHarmless (length s.buffer_1) (length s.buffer_2)) packets
    → (t : Session) × (serve s packets ≡ done t)
unfolding serve Returns
serve-done [] s h = (s, refl)
serve-done ((packet, len) ∷ rest) s h =
    let (t, e, v) = host_rcv_pkt-Returns s packet len h.0 in
    rw (serve, e) (serve-done rest t (rw (v.name_size, v.contents_size) h.1))
