-- ===== src/Bt/Receive/Stable.antt =====
-- What every packet that the callback (blue/bt_main.c) is handed leaves true of the globals, if the
-- parts of the handlers that change a global do.
use hydroponic_closet.Prelude.{
  ℕ, suc, ◌+◌, ◌/◌, ◌%◌, ◌||◌, ◌≡◌, refl, List, [], ◌∷◌, Option, none, some, ◌&&◌, ◌==◌, arith,
  bit_and, u16, All, if_both, on_some,
}
use hydroponic_closet.Bt.Stream.{Buffer, zeroed}
use hydroponic_closet.Bt.State.{Packet, Session, Outcome, done, overrun, hang, word, queue_packet}
use hydroponic_closet.Bt.Codes.{
  hci_event, hci_evt_conn_req, hci_evt_pin_code_req, sdp_type, sdp_att_req,
}
use hydroponic_closet.Bt.Signal.{l2cap_signal}
use hydroponic_closet.Bt.Sdp.{sdp_request}
use hydroponic_closet.Bt.Obex.{write_ack, write_connect}
use hydroponic_closet.Bt.Put.{
  Put, PutEnd, finished, overflow, endless, put_name, put_size, put_body, put_reply,
}
use hydroponic_closet.Bt.Hci.{hci_event_handler}
use hydroponic_closet.Bt.Handler.{
  Partial, header, obex_ack, obex_connect, after_put, obex_put, obex_command, obex_ftp,
  l2cap_cmd_handler, host_rcv_pkt, serve,
}
use hydroponic_closet.Bt.Framing.Obex.{Returned}
use hydroponic_closet.Bt.Framing.Loop.{Kept, Kept-some, KeptEnd, put_step-Kept_cases, put_loop-Kept}

-- What the parts that change a global keep, for one packet.
pub record IsStable (P : Session → Type 0) (packet : Packet) : Type 0 where
  pub queue : (bs : List ℕ) (s : Session) → P s → P (queue_packet bs s)
  pub name : (p q : Put) → P p.session → put_name packet p ≡ some q → P q.session
  pub size : (p : Put) → P p.session → P (put_size packet p).session
  pub body : (p q : Put) → P p.session → put_body packet p ≡ some q → P q.session
  pub signal :
      (s : Session) (len : ℕ)
      → packet 0 ≡ 0x02
      → u16 (word packet 8 7) ≡ 0x01
      → P s
      → P (l2cap_signal s packet len)

module _ (P : Session → Type 0) where
  module _ (packet : Packet) (stable : IsStable P packet) where
    open stable use {queue, name, size, body, signal}

    abbrev OfPut : Put → Type 0
    OfPut p = P p.session

    put_reply-Kept : (o : Option Buffer) (n : ℕ) (p : Put) → OfPut p → Kept OfPut (put_reply o n p)
    unfolding put_reply
    put_reply-Kept none n p k = λ q e. cc
    put_reply-Kept (some b) n p k = Kept-some OfPut _ k

    sdp_request-kept : (s : Session) → P s → P (sdp_request s packet)
    unfolding sdp_request
    sdp_request-kept s k =
        if_both P (packet 9 == sdp_type sdp_att_req)
          (λ _.
            if_both P
              (packet 17 == 0x01 && packet 18 == 0x00 || packet 17 == 0x11 && packet 18 == 0x05)
              (λ _. queue _ s k)
              (λ _. if_both P (packet 17 == 0x12 && packet 18 == 0x00) (λ _. queue _ s k) (λ _. k)))
          (λ _. k)

    hci_event_handler-kept : (s : Session) → P s → P (hci_event_handler s packet)
    unfolding hci_event_handler
    hci_event_handler-kept s k =
        if_both P (packet 1 == hci_event hci_evt_conn_req)
          (λ _. if_both P (s.connected == 0) (λ _. queue _ s k) (λ _. queue _ s k))
          (λ _. if_both P (packet 1 == hci_event hci_evt_pin_code_req) (λ _. queue _ s k) (λ _. k))

    after_put-kept : (e : PutEnd) → KeptEnd OfPut e → Returned P (after_put e)
    unfolding after_put
    after_put-kept (finished p) k =
        if_both P p.send (λ _. queue _ p.session (k p refl)) (λ _. k p refl)
    after_put-kept overflow k = tt
    after_put-kept endless k = tt

    obex_put-kept :
        (len : ℕ) (t : Partial) → P t.session → Returned P (obex_put (header packet) packet len t)
    unfolding obex_put
    obex_put-kept len t k = after_put-kept _ (
        put_loop-Kept OfPut (header packet) packet
          (λ p k.
            put_step-Kept_cases OfPut (header packet) packet p k (λ n. k) (λ q. name p q k)
              (size p k) (λ q. body p q k) (put_reply-Kept _ 2 p k) (put_reply-Kept _ 3 p k))
          (suc len) len _ k)

    obex_command-kept :
        (len : ℕ) (t : Partial)
        → P t.session
        → Returned P (obex_command (header packet) packet len t)
    unfolding obex_command obex_connect
    obex_command-kept len t k =
        let R = Returned P in
        if_both R (bit_and (packet 9) 1 == 0)
          (λ _.
            if_both R (bit_and (packet 11) 127 == 0)
              (λ _. on_some R (write_connect _ _ _ _) (λ _. tt) (λ b w. queue _ t.session k))
              (λ _. if_both R (bit_and (packet 11) 127 == 2) (λ _. obex_put-kept len t k) (λ _. k)))
          (λ _. k)

    obex_ftp-kept : (s : Session) (len : ℕ) → P s → Returned P (obex_ftp s packet len)
    unfolding obex_ftp obex_ack
    obex_ftp-kept s len k =
        let h = header packet in
        let on_to : Option Partial → Outcome =
          λ o. elim o [ none ↦ overrun | some t ↦ obex_command h packet len t ] in
        if_both (λ o. Returned P (on_to o)) ((h.obex_txseq / 2 + 1) % 8 == 0)
          (λ _.
            on_some (λ o. Returned P (on_to o))
              (write_ack h.acl_flags s.src_cid (h.obex_txseq / 2 + 1) zeroed) (λ _. tt)
              (λ b w. obex_command-kept len _ (queue _ s k)))
          (λ _. obex_command-kept len _ k)

    pub host_rcv_pkt-kept : (s : Session) (len : ℕ) → P s → Returned P (host_rcv_pkt s packet len)
    unfolding host_rcv_pkt l2cap_cmd_handler
    host_rcv_pkt-kept s len k =
        let R = Returned P in
        if_both R (packet 0 == 4) (λ _. hci_event_handler-kept s k)
          (λ _.
            if_both R (packet 0 == 2)
              (λ acl.
                if_both R (u16 (word packet 8 7) == 1)
                  (λ sig. signal s len (ground arith) (ground arith) k)
                  (λ _.
                    if_both R (u16 (word packet 8 7) == s.obex_cid) (λ _. obex_ftp-kept s len k)
                      (λ _. sdp_request-kept s k)))
              (λ _. k))

  -- What each packet keeps, a run of them keeps.
  pub serve-kept :
      (packets : List (Packet × ℕ)) (s : Session)
      → All (λ x. IsStable P x.0) packets
      → P s
      → Returned P (serve s packets)
  unfolding serve
  serve-kept [] s each k = k
  serve-kept ((packet, len) ∷ rest) s each k =
      onward (host_rcv_pkt s packet len) (host_rcv_pkt-kept packet each.0 s len k)
        (λ t. serve-kept rest t each.1)
    where
      onward :
          (o : Outcome)
          → Returned P o
          → ((t : Session) → P t → Returned P (serve t rest))
          → Returned P (elim o [ done t ↦ serve t rest | overrun ↦ overrun | hang ↦ hang ])
      onward (done t) a f = f t a
      onward overrun a f = tt
      onward hang a f = tt
