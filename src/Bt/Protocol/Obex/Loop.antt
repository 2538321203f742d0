-- ===== src/Bt/Protocol/Obex/Loop.antt =====
-- The loop of `obex_ftp` (blue/bt_main.c) over the headers of a PUT answers the first one that wants
-- an answer.
use mathlib.Core.Path.{subst}
use hydroponic_closet.Prelude.{
  ℕ, zero, suc, ◌+◌, ◌≡◌, ◌≢◌, refl, sym, ap, ◌∙◌, true, inl, inr, List, [], Option, none, some,
  arith, ltb, ◌==◌, Bool-cases, on_some,
}
use hydroponic_closet.Bt.Stream.{Buffer, write}
use hydroponic_closet.Bt.State.{Packet, Session}
use hydroponic_closet.Bt.Obex.{◌>>=◌, write_fcs, write_srm, write_end, srm_head, end_head}
use hydroponic_closet.Bt.Put.{
  Put, Header, finished, put_name, put_size, put_body, put_reply, put_step, put_loop,
}
use hydroponic_closet.Bt.Framing.Checked.{sealed}
use hydroponic_closet.Bt.Receive.Rounds.{advance, put_step-advance}
use hydroponic_closet.Bt.Protocol.Obex.Sent.{Begins, Holds, written_first, written_next}
use hydroponic_closet.Bt.Protocol.Obex.{
  Answer, go_on, success, packet_of, reply_at, first_of, reply_to,
}

first_of-none : (o : Option Answer) → first_of o none ≡ o
first_of-none none = refl
first_of-none (some a) = refl

first_of_assoc : (o p q : Option Answer) → first_of (first_of o p) q ≡ first_of o (first_of p q)
first_of_assoc none p q = refl
first_of_assoc (some a) p q = refl

module _ (h : Header) (packet : Packet) where
  stays :
      (p q : Put)
      → packet p.i ≢ 0x97
      → packet p.i ≢ 0x49
      → put_step h packet p ≡ some q
      → (q.session.queued ≡ p.session.queued)
        × (q.session.src_cid ≡ p.session.src_cid)
        × (q.send ≡ p.send)
        × (q.frame ≡ p.frame)
  unfolding put_step put_name put_body put_size put_reply
  stays p q a b e = ground arith

  is_srm :
      (p : Put)
      → packet p.i ≡ 0x97
      → put_step h packet p
        ≡ put_reply (write_srm h.acl_flags p.session.src_cid h.obex_reqseq h.obex_txseq p.frame) 2 p
  unfolding put_step
  is_srm p e = rw e refl

  is_end :
      (p : Put)
      → packet p.i ≡ 0x49
      → put_step h packet p
        ≡ put_reply (write_end h.acl_flags p.session.src_cid h.obex_reqseq h.obex_txseq p.frame) 3 p
  unfolding put_step
  is_end p e = rw e refl

  module _ (cid : ℕ) (s : Session) where
    abbrev Held : Option Answer → Put → Type 0
    Held = Holds h.acl_flags cid s

    with_answer :
        (a : Answer) (q : Put)
        → (q.session.queued ≡ s.queued) × (q.session.src_cid ≡ cid) × (q.send ≡ true)
        → Begins h.acl_flags cid a q.frame.written
        → Held (some a) q
    with_answer a q (f, g, t) b = record {
      same_queue = f;
      same_cid = g;
      unsent = λ x. cc;
      sent = λ c x. (
        t,
        (let same : a ≡ c = cc in subst (λ y. Begins h.acl_flags cid y q.frame.written) same b),
      );
    }

    -- One more frame is written, for the answer `a`.
    replied :
        (head : List ℕ) (n moves : ℕ) (a : Answer) (o : Option Answer) (p q : Put)
        → ((cells : List ℕ) → (sealed head n cells).written ≡ packet_of h.acl_flags cid a)
        → Held o p
        → put_reply (write head p.frame >>= write_fcs n) moves p ≡ some q
        → Held (first_of o (some a)) q
    unfolding put_reply
    replied head n moves a o p q shape k e =
        at_frame (write head p.frame >>= write_fcs n)
          (λ d f. (
            λ none_yet.
                written_first h.acl_flags cid head n a p.frame d (shape p.frame.cells) none_yet f,
            λ c b. written_next h.acl_flags cid head n c p.frame d b f,
          ))
          o k e
      where
        at_frame :
            (m : Option Buffer)
            → ((d : Buffer)
                → m ≡ some d
                → (p.frame.written ≡ [] → Begins h.acl_flags cid a d.written)
                  × ((c : Answer)
                      → Begins h.acl_flags cid c p.frame.written
                      → Begins h.acl_flags cid c d.written))
            → (o : Option Answer) → Held o p
            → put_reply m moves p ≡ some q
            → Held (first_of o (some a)) q
        at_frame none w o k e = cc
        at_frame (some d) w none k e =
            let same : record p { frame = d; send = true; i = p.i + moves } ≡ q = cc in
            subst (Held (some a)) same
              (with_answer a _ (k.same_queue, k.same_cid, refl) ((w d refl).0 (k.unsent refl).1))
        at_frame (some d) w (some c) k e =
            let same : record p { frame = d; send = true; i = p.i + moves } ≡ q = cc in
            subst (Held (some c)) same
              (with_answer c _ (k.same_queue, k.same_cid, refl) ((w d refl).1 c (k.sent c refl).1))

    replied_srm :
        (o : Option Answer) (p q : Put)
        → Held o p
        → put_reply (write_srm h.acl_flags cid h.obex_reqseq h.obex_txseq p.frame) 2 p ≡ some q
        → Held (first_of o (some (go_on h.obex_reqseq h.obex_txseq))) q
    unfolding write_srm srm_head
    replied_srm o p q =
        replied (srm_head h.acl_flags cid h.obex_reqseq h.obex_txseq) 11 2
          (go_on h.obex_reqseq h.obex_txseq) o p q (λ cells. refl)

    replied_end :
        (o : Option Answer) (p q : Put)
        → Held o p
        → put_reply (write_end h.acl_flags cid h.obex_reqseq h.obex_txseq p.frame) 3 p ≡ some q
        → Held (first_of o (some (success h.obex_reqseq h.obex_txseq))) q
    unfolding write_end end_head
    replied_end o p q =
        replied (end_head h.acl_flags cid h.obex_reqseq h.obex_txseq) 9 3
          (success h.obex_reqseq h.obex_txseq) o p q (λ cells. refl)

    kept :
        (o : Option Answer) (p q : Put)
        → Held o p
        → (q.session.queued ≡ p.session.queued)
          × (q.session.src_cid ≡ p.session.src_cid)
          × (q.send ≡ p.send)
          × (q.frame ≡ p.frame)
        → Held (first_of o none) q
    kept none p q k (a, b, c, d) = record {
      same_queue = a ∙ k.same_queue;
      same_cid = b ∙ k.same_cid;
      unsent = λ x. (c ∙ (k.unsent x).0, ap (λ (f : Buffer). f.written) d ∙ (k.unsent x).1);
      sent = λ y x. cc;
    }
    kept (some y) p q k (a, b, c, d) =
        with_answer y q (a ∙ k.same_queue, b ∙ k.same_cid, c ∙ (k.sent y refl).0)
          (subst (λ (f : Buffer). Begins h.acl_flags cid y f.written) (sym d) (k.sent y refl).1)

    put_step-Held :
        (o : Option Answer) (p q : Put)
        → Held o p
        → put_step h packet p ≡ some q
        → Held (first_of o (reply_at h.obex_reqseq h.obex_txseq packet p.i)) q
    unfolding reply_at
    put_step-Held o p q k e = elim (Bool-cases (packet p.i == 0x97)) [
      | inl f ↦ rw f (replied_srm o p q k (rw (← k.same_cid) (sym (is_srm p (ground arith)) ∙ e)))
      | inr f ↦ elim (Bool-cases (packet p.i == 0x49)) [
        | inl g ↦
            rw (f, g) (replied_end o p q k (rw (← k.same_cid) (sym (is_end p (ground arith)) ∙ e)))
        | inr g ↦ rw (f, g) (kept o p q k (stays p q (ground arith) (ground arith) e))
      ]
    ]

    abbrev rest_of : ℕ → ℕ → ℕ → Option Answer
    rest_of rounds len i = reply_to rounds h.obex_reqseq h.obex_txseq packet len i

    pub put_loop-Held :
        (rounds len : ℕ) (o : Option Answer) (p : Put)
        → Held o p
        → (q : Put) → put_loop rounds h packet len p ≡ finished q
        → Held (first_of o (rest_of rounds len p.i)) q
    unfolding put_loop reply_to
    put_loop-Held zero len o p k = λ q e. cc
    put_loop-Held (suc rounds) len o p k = elim (Bool-cases (ltb (p.i + 2) len)) [
      | inl more ↦
          let here = reply_at h.obex_reqseq h.obex_txseq packet p.i in
          rw (put_loop, more)
            (on_some
              (λ e.
                (q : Put)
                → e ≡ finished q
                → Held (first_of o (first_of here (rest_of rounds len (p.i + advance packet p.i))))
                    q)
              (put_step h packet p) (λ _ q e. cc)
              (λ r f q e.
                rw (← first_of_assoc o here _, ← put_step-advance h packet p r f)
                  (put_loop-Held rounds len (first_of o here) r (put_step-Held o p r k f) q e)))
      | inr over ↦
          rw (put_loop, over, first_of-none o)
            (λ q e. (let same : p ≡ q = cc in subst (Held o) same k))
    ]
