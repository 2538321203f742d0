-- ===== src/Bt/Framing/Checked.antt =====
-- The frames of `obex_ftp` with the check sequence at their end.
use mathlib.Core.Path.{subst}
use mathlib.Core.List.{append-nil, append_assoc}
use hydroponic_closet.Prelude.{
  ℕ, ◌+◌, ◌≡◌, refl, sym, ◌∙◌, ◌⊎◌, inl, inr, ap, List, [], ◌∷◌, ◌++◌, drop, take, length, Option,
  none, some, u8, arith,
}
use hydroponic_closet.Crc.{crc16}
use hydroponic_closet.Bt.Stream.{Buffer, contents, write}
use hydroponic_closet.Bt.Obex.{
  ◌>>=◌, write_fcs, write_ack, write_connect, write_srm, write_end, ack_head, connect_head,
  srm_head, end_head,
}
use hydroponic_closet.Bt.Framing.Format.{acl_packet, le16}

-- A frame whose information part is followed by the checksum of header and information.
abbrev pub checked_frame : ℕ → List ℕ → List ℕ
checked_frame cid info =
    let covered = le16 (length info + 2) ++ le16 cid ++ info in covered ++ le16 (crc16 0 covered)

-- Bytes and their checksum, written from the start of the command buffer.
abbrev pub sealed : List ℕ → ℕ → List ℕ → Buffer
sealed head n cells = record {
  written = head ++ le16 (crc16 0 (take n (drop 7 (head ++ drop (length head) cells))));
  cells = drop 2 (drop (length head) cells);
}

write-some :
    (bs : List ℕ) (b : Buffer) {d : Buffer}
    → write bs b ≡ some d
    → d ≡ record { written = b.written ++ bs; cells = drop (length bs) b.cells }
unfolding write
write-some bs b e = ground arith

write_fcs-some :
    (n : ℕ) (b : Buffer) {d : Buffer}
    → write_fcs n b ≡ some d
    → d ≡ record {
      written = b.written ++ le16 (crc16 0 (take n (drop 7 (contents b))));
      cells = drop 2 b.cells;
    }
unfolding write_fcs
write_fcs-some n b e = write-some _ b e

bind_some :
    (m : Option Buffer) (f : Buffer → Option Buffer) {d : Buffer}
    → (m >>= f) ≡ some d
    → (c : Buffer) × (m ≡ some c) × (f c ≡ some d)
bind_some none f e = cc
bind_some (some c) f e = (c, refl, e)

sealed_step :
    (head : List ℕ) (n : ℕ) (b c d : Buffer)
    → b.written ≡ []
    → c ≡ record { written = b.written ++ head; cells = drop (length head) b.cells }
    → d ≡ record {
      written = c.written ++ le16 (crc16 0 (take n (drop 7 (contents c))));
      cells = drop 2 c.cells;
    }
    → d ≡ sealed head n b.cells
unfolding contents
sealed_step head n b c d start e f = rw (f, e, start) refl

-- What a successful write from the start of the buffer has written.
pub write-sealed :
    (head : List ℕ) (n : ℕ) (b d : Buffer)
    → b.written ≡ []
    → (write head b >>= write_fcs n) ≡ some d
    → d ≡ sealed head n b.cells
write-sealed head n b d start e =
    let (c, e1, e2) = bind_some (write head b) (write_fcs n) e in
    sealed_step head n b c d start (write-some head b e1) (write_fcs-some n c e2)

-- A later write leaves what was written in front.
pub write_behind :
    (head : List ℕ) (n : ℕ) (b d : Buffer)
    → (write head b >>= write_fcs n) ≡ some d
    → (more : List ℕ) × (d.written ≡ b.written ++ more)
write_behind head n b d e =
    let (c, e1, e2) = bind_some (write head b) (write_fcs n) e in
    (
      head ++ le16 (crc16 0 (take n (drop 7 (contents c)))),
      ap (λ (t : Buffer). t.written) (write_fcs-some n c e2)
          ∙ ap (λ (t : Buffer). t.written ++ le16 (crc16 0 (take n (drop 7 (contents c)))))
              (write-some head b e1)
          ∙ append_assoc b.written head _,
    )

-- Bytes that begin with the packet of a frame that carries its checksum.
pub record IsChecked (flags cid : ℕ) (bs : List ℕ) : Type 0 where
  pub info : List ℕ
  pub rest : List ℕ
  pub layout : bs ≡ acl_packet flags (checked_frame cid info) ++ rest

IsChecked-of_start :
    {flags cid : ℕ} (b : Buffer) (info : List ℕ)
    → b.written ≡ acl_packet flags (checked_frame cid info)
    → IsChecked flags cid b.written
IsChecked-of_start b info e = record { info = info; rest = []; layout = e ∙ sym (append-nil _) }

-- The command buffer is unwritten, or begins with a frame that carries its checksum.
abbrev pub Ready : ℕ → ℕ → Buffer → Type 0
Ready flags cid b = (b.written ≡ []) ⊎ IsChecked flags cid b.written

pub IsChecked-append :
    {flags cid : ℕ} (bs more : List ℕ) → IsChecked flags cid bs → IsChecked flags cid (bs ++ more)
IsChecked-append {flags} {cid} bs more c = record {
  info = c.info;
  rest = c.rest ++ more;
  layout = rw c.layout (append_assoc (acl_packet flags (checked_frame cid c.info)) c.rest more);
}

-- One more frame, from the start or behind another.
write-IsChecked :
    {flags cid : ℕ} (head : List ℕ) (n : ℕ) (info : List ℕ) (b d : Buffer)
    → (sealed head n b.cells).written ≡ acl_packet flags (checked_frame cid info)
    → Ready flags cid b
    → (write head b >>= write_fcs n) ≡ some d
    → IsChecked flags cid d.written
write-IsChecked head n info b d shape (inl start) e =
    IsChecked-of_start d info
      (ap (λ (t : Buffer). t.written) (write-sealed head n b d start e) ∙ shape)
write-IsChecked {flags} {cid} head n info b d shape (inr c) e =
    let (more, grown) = write_behind head n b d e in
    subst (IsChecked flags cid) (sym grown) (IsChecked-append b.written more c)

module _ (flags cid : ℕ) (b d : Buffer) (ready : Ready flags cid b) where
  pub write_ack-IsChecked :
      (tx : ℕ) → write_ack flags cid tx b ≡ some d → IsChecked flags cid d.written
  unfolding write_ack ack_head
  write_ack-IsChecked tx =
      write-IsChecked (ack_head flags cid tx) 6 (0x01 ∷ u8 tx ∷ []) b d refl ready

  pub write_connect-IsChecked :
      (id : ℕ) → write_connect flags cid id b ≡ some d → IsChecked flags cid d.written
  unfolding write_connect connect_head
  write_connect-IsChecked id =
      write-IsChecked (connect_head flags cid id) 18 (drop 11 (connect_head flags cid id)) b d refl
        ready

  pub write_srm-IsChecked :
      (r t : ℕ) → write_srm flags cid r t b ≡ some d → IsChecked flags cid d.written
  unfolding write_srm srm_head
  write_srm-IsChecked r t =
      write-IsChecked (srm_head flags cid r t) 11 (drop 11 (srm_head flags cid r t)) b d refl ready

  pub write_end-IsChecked :
      (r t : ℕ) → write_end flags cid r t b ≡ some d → IsChecked flags cid d.written
  unfolding write_end end_head
  write_end-IsChecked r t =
      write-IsChecked (end_head flags cid r t) 9 (drop 11 (end_head flags cid r t)) b d refl ready
