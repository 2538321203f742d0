-- ===== src/Bt/Protocol/Obex/Answers.antt =====
-- `obex_ftp` (blue/bt_main.c) gives the answers of the protocol.
use Prim.{tt}
use mathlib.Core.Path.{subst}
use hydroponic_closet.Prelude.{
  ℕ, suc, ◌+◌, ◌/◌, ◌%◌, ◌≡◌, ◌≢◌, ◌⊎◌, length, refl, List, [], ◌∷◌, ◌++◌, map, Option, none, some,
  bit_and, u16, ◌==◌, Bool-cases, inl, inr, on_some, if◌then◌else◌,
}
use hydroponic_closet.Bt.Stream.{zeroed, rewind}
use hydroponic_closet.Bt.State.{Packet, Session, Outcome, done, overrun, hang, word, queue_packet}
use hydroponic_closet.Bt.Obex.{write_ack, write_connect}
use hydroponic_closet.Bt.Put.{Put, PutEnd, finished, overflow, endless}
use hydroponic_closet.Bt.Handler.{
  Partial, header, obex_ack, obex_connect, after_put, obex_put, obex_command, obex_ftp,
}
use hydroponic_closet.Bt.Transport.{payload}
use hydroponic_closet.Bt.Framing.Obex.{Returned}
use hydroponic_closet.Bt.Receive.Room.{Fitting}
use hydroponic_closet.Bt.Receive.Returns.{obex_ftp-done}
use hydroponic_closet.Bt.Protocol.Obex.Sent.{Holds, ack-Begins, connect-Begins}
use hydroponic_closet.Bt.Protocol.Obex.Queue.{
  Answered, queued-Answered, Answered-refl, Answered-trans,
}
use hydroponic_closet.Bt.Protocol.Obex.Loop.{put_loop-Held}
use hydroponic_closet.Bt.Protocol.Obex.{
  Answer, acknowledged, accepted, frame_of, reply_to, all_of, answers,
}

-- Between the acknowledgement and the command.
record Started (s : Session) (packet : Packet) (xs : List Answer) (u : Partial) : Type 0 where
  answered : Answered (u16 (word packet 2 1)) s.src_cid s xs u.session
  same_cid : u.session.src_cid ≡ s.src_cid
  same_id : u.session.obex_conn_id ≡ s.obex_conn_id
  unwritten : u.frame.written ≡ []

module _ (s : Session) (packet : Packet) where
  abbrev flags : ℕ
  flags = u16 (word packet 2 1)

  abbrev reqseq : ℕ
  reqseq = bit_and (packet 10) 0b00111111

  abbrev txseq : ℕ
  txseq = bit_and (packet 9) 0b01111110

  Begun : List Answer → Option Partial → Type 0
  Begun xs o = (u : Partial) → o ≡ some u → Started s packet xs u

  Begun-some : (xs : List Answer) (u : Partial) → Started s packet xs u → Begun xs (some u)
  unfolding Begun
  Begun-some xs u k v e = (let same : u ≡ v = cc in subst (Started s packet xs) same k)

  obex_ack-Started :
      Begun
        (if (txseq / 2 + 1) % 8 == 0 then acknowledged (txseq / 2 + 1) ∷ [] else [])
        (obex_ack (header packet) s)
  unfolding Begun obex_ack rewind zeroed queue_packet
  obex_ack-Started = elim (Bool-cases ((txseq / 2 + 1) % 8 == 0)) [
    | inl e ↦ rw e (
        on_some (Begun (acknowledged (txseq / 2 + 1) ∷ []))
          (write_ack flags s.src_cid (txseq / 2 + 1) zeroed) (λ _ u f. cc)
          (λ b f. Begun-some _ _ record {
            answered =
                queued-Answered flags s.src_cid s _ b
                  (ack-Begins flags s.src_cid (txseq / 2 + 1) zeroed b refl f);
            same_cid = refl;
            same_id = refl;
            unwritten = refl;
          }))
    | inr e ↦ rw e (
        Begun-some [] _ (record {
          answered = Answered-refl flags s.src_cid s;
          same_cid = refl;
          same_id = refl;
          unwritten = refl;
        }))
  ]

  -- From the globals behind the acknowledgement on.
  Adds : Session → List Answer → Outcome → Type 0
  Adds u xs = Returned (Answered flags s.src_cid u xs)

  module _ (u : Partial) (same_cid : u.session.src_cid ≡ s.src_cid)
      (unwritten : u.frame.written ≡ []) where
    obex_connect-Adds :
        Adds u.session (accepted u.session.obex_conn_id ∷ []) (obex_connect (header packet) u)
    unfolding Adds obex_connect
    obex_connect-Adds =
        on_some (Adds u.session (accepted u.session.obex_conn_id ∷ []))
          (write_connect flags u.session.src_cid u.session.obex_conn_id u.frame) (λ _. tt)
          (λ b e. queued-Answered flags s.src_cid u.session _ b (
            connect-Begins flags s.src_cid u.session.obex_conn_id u.frame b unwritten
              (rw (← same_cid) e)))

    after_put-Adds :
        (e : PutEnd) (o : Option Answer)
        → ((q : Put) → e ≡ finished q → Holds flags s.src_cid u.session o q)
        → Adds u.session (all_of o) (after_put e)
    unfolding Adds after_put queue_packet
    after_put-Adds (finished q) none k =
        let h = k q refl in
        rw ((h.unsent refl).0, h.same_queue) (Answered-refl flags s.src_cid u.session)
    after_put-Adds (finished q) (some a) k =
        let h = k q refl in
        rw ((h.sent a refl).0, h.same_queue)
          (queued-Answered flags s.src_cid u.session a q.frame (h.sent a refl).1)
    after_put-Adds overflow o k = tt
    after_put-Adds endless o k = tt

    obex_put-Adds :
        (len : ℕ)
        → Adds u.session
            (all_of (reply_to (suc len) reqseq txseq packet len 14))
            (obex_put (header packet) packet len u)
    unfolding obex_put
    obex_put-Adds len = after_put-Adds _ _ (
        put_loop-Held (header packet) packet s.src_cid u.session (suc len) len none _ (record {
          same_queue = refl;
          same_cid = same_cid;
          unsent = λ _. (refl, unwritten);
          sent = λ a x. cc;
        }))

    abbrev of_command : ℕ → List Answer
    of_command len =
        if bit_and (packet 9) 1 == 0
        then (if bit_and (packet 11) 0b01111111 == 0x00
            then accepted u.session.obex_conn_id ∷ []
            else if bit_and (packet 11) 0b01111111 == 0x02
            then all_of (reply_to (suc len) reqseq txseq packet len 14)
            else [])
        else []

    obex_command-Adds :
        (len : ℕ) → Adds u.session (of_command len) (obex_command (header packet) packet len u)
    unfolding obex_command Adds
    obex_command-Adds len = elim (Bool-cases (bit_and (packet 9) 1 == 0)) [
      | inr e ↦ rw e (Answered-refl flags s.src_cid u.session)
      | inl e ↦ elim (Bool-cases (bit_and (packet 11) 0b01111111 == 0x00)) [
        | inl f ↦ rw (e, f) obex_connect-Adds
        | inr f ↦ elim (Bool-cases (bit_and (packet 11) 0b01111111 == 0x02)) [
          | inl g ↦ rw (e, f, g) (obex_put-Adds len)
          | inr g ↦ rw (e, f, g) (Answered-refl flags s.src_cid u.session)
        ]
      ]
    ]

  and_then :
      (xs ys : List Answer) (u : Partial) (o : Outcome)
      → Answered flags s.src_cid s xs u.session
      → Adds u.session ys o
      → Adds s (xs ++ ys) o
  unfolding Adds
  and_then xs ys u (done t) a b = Answered-trans flags s.src_cid s u.session t xs ys a b
  and_then xs ys u overrun a b = tt
  and_then xs ys u hang a b = tt

  obex_ftp-Adds : (len : ℕ) → Adds s (answers packet len s.obex_conn_id) (obex_ftp s packet len)
  unfolding obex_ftp Adds answers Begun
  obex_ftp-Adds len =
      on_some (Adds s (answers packet len s.obex_conn_id)) (obex_ack (header packet) s) (λ _. tt)
        (λ u e.
          let k = obex_ack-Started u e in
          rw (← k.same_id) (
            and_then _ _ u (obex_command (header packet) packet len u) k.answered
              (obex_command-Adds u k.same_cid k.unwritten len)))

  -- If a packet on the OBEX channel is no PUT, or its headers are a chain of known headers to its end
  -- with room for what they hold and for their answers: `obex_ftp` returns, and the packets that it
  -- has queued for the controller, behind those of before, are the frames of the protocol's answers
  -- on the peer's channel: an acknowledgement after every eighth frame, and then the response to a
  -- connect, or to the first header of a PUT that wants one.
  pub obex_ftp-answers :
      (len : ℕ)
      → (bit_and (packet 11) 0b01111111 ≢ 2)
        ⊎ Fitting packet len (length s.buffer_1) (length s.buffer_2) 14 300
      → (t : Session) × (obex_ftp s packet len ≡ done t)
        × (map payload t.queued
            ≡ map payload s.queued
              ++ map
                  (frame_of (u16 (word packet 2 1)) s.src_cid)
                  (answers packet len s.obex_conn_id))
  unfolding Adds
  obex_ftp-answers len fits =
      let (t, e) = obex_ftp-done s packet len fits in
      (t, e, subst (Adds s (answers packet len s.obex_conn_id)) e (obex_ftp-Adds len))
