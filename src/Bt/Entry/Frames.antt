-- ===== src/Bt/Entry/Frames.antt =====
-- What `obex_ftp` (bt_main.c) queues, as entries.
use hydroponic_closet.Prelude.{ℕ, ◌≡◌, refl, List, All, Option, none, some, arith}
use mathlib.Core.Path.{subst}
use hydroponic_closet.Bt.Stream.{Buffer, write}
use hydroponic_closet.Bt.State.{Packet, Session}
use hydroponic_closet.Bt.Obex.{
  ◌>>=◌, write_fcs, ack_head, write_ack, connect_head, write_connect, srm_head, write_srm, end_head,
  write_end,
}
use hydroponic_closet.Bt.Put.{Put, Header, put_name, put_size, put_body, put_reply, put_step}
use hydroponic_closet.Bt.Framing.Signals.{Added-kept}
use hydroponic_closet.Bt.Entry.{IsByte, IsFull, write-IsFull}
use hydroponic_closet.Bt.Framing.Loop.{Kept, Kept-some, put_step-Kept_cases}
use hydroponic_closet.Bt.Entry.Replies.{AddsEntries}

-- A frame and its check sequence leave the buffer full.
framed :
    (bs : List ℕ) (n : ℕ) (b d : Buffer)
    → All IsByte bs
    → IsFull b
    → (write bs b >>= write_fcs n) ≡ some d
    → IsFull d
unfolding write_fcs
framed bs n b d h v = checked (write bs b) (λ c. write-IsFull bs b c h v)
  where
    checked :
        (o : Option Buffer)
        → ((c : Buffer) → o ≡ some c → IsFull c)
        → (o >>= write_fcs n) ≡ some d
        → IsFull d
    checked none w e = cc
    checked (some c) w e = write-IsFull _ c d (ground arith) (w c refl) e

module _ (f p : ℕ) (b d : Buffer) (v : IsFull b) where
  pub write_ack-IsFull : (tx : ℕ) → write_ack f p tx b ≡ some d → IsFull d
  unfolding write_ack ack_head
  write_ack-IsFull tx = framed _ 6 b d (ground arith) v

  pub write_connect-IsFull : (id : ℕ) → write_connect f p id b ≡ some d → IsFull d
  unfolding write_connect connect_head
  write_connect-IsFull id = framed _ 18 b d (ground arith) v

  write_srm-IsFull : (r x : ℕ) → write_srm f p r x b ≡ some d → IsFull d
  unfolding write_srm srm_head
  write_srm-IsFull r x = framed _ 11 b d (ground arith) v

  write_end-IsFull : (r x : ℕ) → write_end f p r x b ≡ some d → IsFull d
  unfolding write_end end_head
  write_end-IsFull r x = framed _ 9 b d (ground arith) v

module _ (s : Session) where
  -- At each round of the loop over the headers.
  pub record IsReady (p : Put) : Type 0 where
    pub frame_full : IsFull p.frame
    pub added : AddsEntries s p.session

  module _ (h : Header) (packet : Packet) where
    abbrev Stays : Option Put → Type 0
    Stays = Kept IsReady

    -- A header that changes neither the queue nor the frame.
    kept :
        (p q : Put)
        → IsReady p
        → p.session.queued ≡ q.session.queued
        → p.frame ≡ q.frame
        → IsReady q
    kept p q k same_queue same_frame = record {
      frame_full = subst IsFull same_frame k.frame_full;
      added = Added-kept p.session q.session same_queue k.added;
    }

    put_name-Stays : (p : Put) → IsReady p → Stays (put_name packet p)
    unfolding put_name
    put_name-Stays p k q e = kept p q k (ground arith) (ground arith)

    put_body-Stays : (p : Put) → IsReady p → Stays (put_body packet p)
    unfolding put_body
    put_body-Stays p k q e = kept p q k (ground arith) (ground arith)

    put_reply-Stays :
        (o : Option Buffer) (n : ℕ) (p : Put)
        → IsReady p
        → ((b : Buffer) → o ≡ some b → IsFull b)
        → Stays (put_reply o n p)
    unfolding put_reply
    put_reply-Stays none n p k good = λ q e. cc
    put_reply-Stays (some b) n p k good =
        Kept-some IsReady _ (record { frame_full = good b refl; added = k.added })

    pub put_step-Stays : (p : Put) → IsReady p → Stays (put_step h packet p)
    unfolding put_size
    put_step-Stays p k =
        let cid = p.session.src_cid in
        put_step-Kept_cases IsReady h packet p k
          (λ n. record { frame_full = k.frame_full; added = k.added }) (put_name-Stays p k)
          (kept p _ k refl refl) (put_body-Stays p k)
          (put_reply-Stays _ 2 p k
            (λ b. write_srm-IsFull h.acl_flags cid p.frame b k.frame_full _ _))
          (put_reply-Stays _ 3 p k
            (λ b. write_end-IsFull h.acl_flags cid p.frame b k.frame_full _ _))
