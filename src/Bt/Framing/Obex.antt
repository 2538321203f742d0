-- ===== src/Bt/Framing/Obex.antt =====
-- The form of the packets that `obex_ftp` queues.
use mathlib.Core.Path.{subst}
use hydroponic_closet.Prelude.{
  ℕ, suc, ◌+◌, ◌/◌, ◌%◌, ◌≡◌, refl, sym, inl, inr, [], ◌++◌, true, Option, none, some, arith, u16,
  bit_and, ◌==◌, if◌then◌else◌, if_both, on_some,
}
use hydroponic_closet.Bt.Stream.{Buffer, zeroed, contents, rewind}
use hydroponic_closet.Bt.State.{Packet, Session, Outcome, done, overrun, hang, word, queue_packet}
use hydroponic_closet.Bt.Obex.{write_ack, write_connect, write_srm, write_end}
use hydroponic_closet.Bt.Put.{
  Put, Header, PutEnd, finished, overflow, endless, put_name, put_size, put_body, put_reply,
  put_step,
}
use hydroponic_closet.Bt.Handler.{
  Partial, header, obex_ack, obex_connect, after_put, obex_put, obex_command, obex_ftp,
}
use hydroponic_closet.Bt.Framing.Format.{Added}
use hydroponic_closet.Bt.Framing.Signals.{Added-none, Added-snoc, Added-kept}
use hydroponic_closet.Bt.Framing.Loop.{Kept, Kept-some, KeptEnd, put_step-Kept_cases, put_loop-Kept}
use hydroponic_closet.Bt.Framing.Checked.{
  IsChecked, Ready, IsChecked-append, write_ack-IsChecked, write_connect-IsChecked,
  write_srm-IsChecked, write_end-IsChecked,
}

-- What the loop keeps: the queue and the channel are those of `s`, and the frame that is to be
-- sent carries its checksum.
pub record Keeps (flags : ℕ) (s : Session) (p : Put) : Type 0 where
  pub same_queue : p.session.queued ≡ s.queued
  pub same_cid : p.session.src_cid ≡ s.src_cid
  pub ready : Ready flags s.src_cid p.frame
  pub sent : p.send ≡ true → IsChecked flags s.src_cid p.frame.written

module _ (h : Header) (packet : Packet) (s : Session) where
  put_name-Keeps :
      (p q : Put) → Keeps h.acl_flags s p → put_name packet p ≡ some q → Keeps h.acl_flags s q
  unfolding put_name
  put_name-Keeps p q k e = ground arith

  put_body-Keeps :
      (p q : Put) → Keeps h.acl_flags s p → put_body packet p ≡ some q → Keeps h.acl_flags s q
  unfolding put_body
  put_body-Keeps p q k e = ground arith

  put_size-Keeps : (p : Put) → Keeps h.acl_flags s p → Keeps h.acl_flags s (put_size packet p)
  unfolding put_size
  put_size-Keeps p k = record {
    same_queue = k.same_queue;
    same_cid = k.same_cid;
    ready = k.ready;
    sent = k.sent;
  }

  abbrev KeptHere : Option Put → Type 0
  KeptHere = Kept (Keeps h.acl_flags s)

  put_reply-Kept :
      (o : Option Buffer) (n : ℕ) (p : Put)
      → Keeps h.acl_flags s p
      → ((b : Buffer) → o ≡ some b → IsChecked h.acl_flags s.src_cid b.written)
      → KeptHere (put_reply o n p)
  unfolding put_reply
  put_reply-Kept none n p k good = λ q e. cc
  put_reply-Kept (some b) n p k good = Kept-some (Keeps h.acl_flags s) _ (record {
    same_queue = k.same_queue;
    same_cid = k.same_cid;
    ready = inr (good b refl);
    sent = λ _. good b refl;
  })

  module _ (p : Put) (k : Keeps h.acl_flags s p) where
    srm :
        (b : Buffer)
        → write_srm h.acl_flags p.session.src_cid h.obex_reqseq h.obex_txseq p.frame ≡ some b
        → IsChecked h.acl_flags s.src_cid b.written
    srm b =
        rw k.same_cid
          (write_srm-IsChecked h.acl_flags s.src_cid p.frame b k.ready h.obex_reqseq h.obex_txseq)

    ended :
        (b : Buffer)
        → write_end h.acl_flags p.session.src_cid h.obex_reqseq h.obex_txseq p.frame ≡ some b
        → IsChecked h.acl_flags s.src_cid b.written
    ended b =
        rw k.same_cid
          (write_end-IsChecked h.acl_flags s.src_cid p.frame b k.ready h.obex_reqseq h.obex_txseq)

    put_step-Kept : KeptHere (put_step h packet p)
    put_step-Kept =
        put_step-Kept_cases (Keeps h.acl_flags s) h packet p k
          (λ n. record {
            same_queue = k.same_queue;
            same_cid = k.same_cid;
            ready = k.ready;
            sent = k.sent;
          })
          (λ q. put_name-Keeps p q k) (put_size-Keeps p k) (λ q. put_body-Keeps p q k)
          (put_reply-Kept _ 2 p k srm) (put_reply-Kept _ 3 p k ended)

-- What holds of a session that a handler returns with.
abbrev pub Returned : (Session → Type 0) → Outcome → Type 0
Returned P (done t) = P t
Returned P overrun = Unit
Returned P hang = Unit

module _ (s : Session) (packet : Packet) where
  abbrev Sealed : Session → Type 0
  Sealed = Added (IsChecked (u16 (word packet 2 1)) s.src_cid) s

  -- Between the acknowledgement and the command.
  record Started (t : Partial) : Type 0 where
    added : Sealed t.session
    same_cid : t.session.src_cid ≡ s.src_cid
    unwritten : t.frame.written ≡ []

  queue_checked :
      (t : Session) (b : Buffer)
      → IsChecked (u16 (word packet 2 1)) s.src_cid b.written
      → Sealed t
      → Sealed (queue_packet (contents b) t)
  unfolding queue_packet contents
  queue_checked t b c a =
      Added-snoc t (b.written ++ b.cells) (IsChecked-append b.written b.cells c) a

  obex_ack-Started : (t : Partial) → obex_ack (header packet) s ≡ some t → Started t
  unfolding obex_ack rewind zeroed queue_packet
  obex_ack-Started t =
      if_both Begins (((header packet).obex_txseq / 2 + 1) % 8 == 0)
        (λ _.
          on_some Begins (write_ack _ _ _ _) (λ _ e. cc)
            (λ b e. Begins-some _ record {
              added = queue_checked s b (write_ack-IsChecked _ _ _ b (inl refl) _ e) (Added-none s);
              same_cid = refl;
              unwritten = refl;
            }))
        (λ _. Begins-some _ (record { added = Added-none s; same_cid = refl; unwritten = refl }))
    where
      Begins : Option Partial → Type 0
      Begins o = o ≡ some t → Started t

      Begins-some : (u : Partial) → Started u → Begins (some u)
      Begins-some u g e = (let same : u ≡ t = cc in subst Started same g)

  obex_connect-Sealed : (t : Partial) → Started t → Returned Sealed (obex_connect (header packet) t)
  unfolding obex_connect
  obex_connect-Sealed t g =
      on_some (Returned Sealed) (write_connect _ _ _ _) (λ _. tt)
        (λ b e.
          queue_checked t.session b
            (write_connect-IsChecked _ s.src_cid t.frame b (inl g.unwritten) t.session.obex_conn_id
              (rw (← g.same_cid) e))
            g.added)

  after_put-Sealed :
      (t : Partial)
      → Started t
      → (e : PutEnd) → KeptEnd (Keeps (u16 (word packet 2 1)) t.session) e
      → Returned Sealed (after_put e)
  unfolding after_put
  after_put-Sealed t g (finished p) k = finished-Sealed (k p refl)
    where
      finished-Sealed :
          Keeps (u16 (word packet 2 1)) t.session p
          → Sealed (if p.send then queue_packet (contents p.frame) p.session else p.session)
      finished-Sealed kept =
          let same : Sealed p.session =
            Added-kept t.session p.session (sym kept.same_queue) g.added in
          if_both Sealed p.send
            (λ e. queue_checked p.session p.frame (rw (← g.same_cid) (kept.sent e)) same)
            (λ _. same)
  after_put-Sealed t g overflow k = tt
  after_put-Sealed t g endless k = tt

  obex_put-Sealed :
      (len : ℕ) (t : Partial) → Started t → Returned Sealed (obex_put (header packet) packet len t)
  unfolding obex_put
  obex_put-Sealed len t g = after_put-Sealed t g _ (
      put_loop-Kept (Keeps (u16 (word packet 2 1)) t.session) (header packet) packet
        (put_step-Kept (header packet) packet t.session) (suc len) len _
        (record { same_queue = refl; same_cid = refl; ready = inl g.unwritten; sent = λ e. cc }))

  obex_command-Sealed :
      (len : ℕ) (t : Partial)
      → Started t
      → Returned Sealed (obex_command (header packet) packet len t)
  unfolding obex_command
  obex_command-Sealed len t g =
      if_both (Returned Sealed) (bit_and (packet 9) 1 == 0)
        (λ _.
          if_both (Returned Sealed) (bit_and (packet 11) 127 == 0) (λ _. obex_connect-Sealed t g)
            (λ _.
              if_both (Returned Sealed) (bit_and (packet 11) 127 == 2)
                (λ _. obex_put-Sealed len t g) (λ _. g.added)))
        (λ _. g.added)

  -- Whatever arrives on the OBEX channel: if `obex_ftp` returns, the packets that it queued stand
  -- behind those of before, and each begins with a complete frame for the peer's channel, with the
  -- flags of the request, right lengths and, at its end, the checksum of its header and
  -- information.
  pub obex_ftp-Added :
      (len : ℕ)
      → Returned (Added (IsChecked (u16 (word packet 2 1)) s.src_cid) s) (obex_ftp s packet len)
  unfolding obex_ftp
  obex_ftp-Added len =
      on_some (Returned Sealed) (obex_ack (header packet) s) (λ _. tt)
        (λ t e. obex_command-Sealed len t (obex_ack-Started t e))
