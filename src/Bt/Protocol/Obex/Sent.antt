-- ===== src/Bt/Protocol/Obex/Sent.antt =====
-- The frames of `obex_ftp` (blue/bt_main.c) in the command buffer, as answers.
use mathlib.Core.List.{append-nil, append_assoc}
use hydroponic_closet.Prelude.{
  ℕ, ◌≡◌, refl, sym, ap, ◌∙◌, true, false, List, [], ◌++◌, Option, none, some,
}
use hydroponic_closet.Bt.Stream.{Buffer, write}
use hydroponic_closet.Bt.State.{Session}
use hydroponic_closet.Bt.Obex.{◌>>=◌, write_fcs, ack_head, connect_head, write_ack, write_connect}
use hydroponic_closet.Bt.Put.{Put}
use hydroponic_closet.Bt.Framing.Checked.{sealed, write-sealed, write_behind}
use hydroponic_closet.Bt.Protocol.Obex.{Answer, acknowledged, accepted, packet_of}

-- The bytes begin with the packet of an answer.
pub record Begins (flags cid : ℕ) (a : Answer) (bs : List ℕ) : Type 0 where
  pub more : List ℕ
  pub layout : bs ≡ packet_of flags cid a ++ more

module _ (flags cid : ℕ) where
  -- A frame written to an empty buffer.
  pub written_first :
      (head : List ℕ) (n : ℕ) (a : Answer) (b d : Buffer)
      → (sealed head n b.cells).written ≡ packet_of flags cid a
      → b.written ≡ []
      → (write head b >>= write_fcs n) ≡ some d
      → Begins flags cid a d.written
  written_first head n a b d shape start e = record {
    more = [];
    layout =
        ap (λ (t : Buffer). t.written) (write-sealed head n b d start e)
        ∙ shape
        ∙ sym (append-nil _);
  }

  -- A frame written behind an answer.
  pub written_next :
      (head : List ℕ) (n : ℕ) (a : Answer) (b d : Buffer)
      → Begins flags cid a b.written
      → (write head b >>= write_fcs n) ≡ some d
      → Begins flags cid a d.written
  written_next head n a b d c e =
      let (more, grown) = write_behind head n b d e in
      record {
        more = c.more ++ more;
        layout =
            grown
            ∙ ap (λ bs. bs ++ more) c.layout
            ∙ append_assoc (packet_of flags cid a) c.more more;
      }

  pub ack-Begins :
      (tx : ℕ) (b d : Buffer)
      → b.written ≡ []
      → write_ack flags cid tx b ≡ some d
      → Begins flags cid (acknowledged tx) d.written
  unfolding write_ack ack_head
  ack-Begins tx b d = written_first (ack_head flags cid tx) 6 (acknowledged tx) b d refl

  pub connect-Begins :
      (id : ℕ) (b d : Buffer)
      → b.written ≡ []
      → write_connect flags cid id b ≡ some d
      → Begins flags cid (accepted id) d.written
  unfolding write_connect connect_head
  connect-Begins id b d = written_first (connect_head flags cid id) 18 (accepted id) b d refl

  -- The answer that the loop has come to, and what it leaves the same.
  pub record Holds (s : Session) (o : Option Answer) (p : Put) : Type 0 where
    pub same_queue : p.session.queued ≡ s.queued
    pub same_cid : p.session.src_cid ≡ cid
    pub unsent : o ≡ none → (p.send ≡ false) × (p.frame.written ≡ [])
    pub sent : (a : Answer) → o ≡ some a → (p.send ≡ true) × Begins flags cid a p.frame.written
