-- ===== src/Bt/Entry.antt =====
-- The entries of the send queue of bt_main.c: the whole command buffer, as bytes.
pub mod Replies
pub mod Frames
pub mod Queued
use mathlib.Core.Path.{subst}
use hydroponic_closet.Prelude.{
  ℕ, ◌+◌, ◌-◌, ◌<◌, ◌≤◌, ◌≡◌, refl, List, [], ◌∷◌, ◌++◌, Option, none, some, All, All-append,
  All-drop, All-replicate, length, length-append, length-drop, length-replicate, drop, replicate,
  true, leb, if_both, arith,
}
use hydroponic_closet.Bt.Stream.{max_cmd_len, Buffer, zeroed, contents, rewind, write, overlay}

-- A byte.
abbrev pub IsByte : ℕ → Type 0
IsByte b = b < 256

-- An entry of the queue is MAX_CMD_LEN bytes long.
pub record IsEntry (entry : List ℕ) : Type 0 where
  pub size : length entry ≡ max_cmd_len
  pub bytes : All IsByte entry

-- A command buffer, wherever its pointer stands.
pub record IsFull (b : Buffer) : Type 0 where
  pub size : length b.written + length b.cells ≡ max_cmd_len
  pub written_bytes : All IsByte b.written
  pub cell_bytes : All IsByte b.cells

pub zeroed-IsFull : IsFull zeroed
unfolding zeroed
zeroed-IsFull = record {
  size = refl;
  written_bytes = tt;
  cell_bytes = All-replicate IsByte 300 0 (omega arith);
}

pub contents-IsEntry : (b : Buffer) → IsFull b → IsEntry (contents b)
unfolding contents
contents-IsEntry b v = record {
  size = omega (arith, length-append b.written b.cells, v.size);
  bytes = All-append IsByte b.written b.cells v.written_bytes v.cell_bytes;
}

pub rewind-IsFull : (b : Buffer) → IsFull b → IsFull (rewind b)
unfolding rewind
rewind-IsFull b v =
    let e = contents-IsEntry b v in
    record { size = omega (arith, e.size); written_bytes = tt; cell_bytes = e.bytes }

fits_le : (m n : ℕ) → leb m n ≡ true → m ≤ n
fits_le m n h = ground arith

pub write-IsFull :
    (bs : List ℕ) (b c : Buffer) → All IsByte bs → IsFull b → write bs b ≡ some c → IsFull c
unfolding write
write-IsFull bs b c h v =
    if_both (λ o. o ≡ some c → IsFull c) (leb (length bs) (length b.cells))
      (λ fits e.
        (let same : record { written = b.written ++ bs; cells = drop (length bs) b.cells } ≡ c =
            cc in
          subst IsFull same (record {
            size = omega (
              arith,
              v.size,
              length-append b.written bs,
              length-drop (length bs) b.cells,
              fits_le (length bs) (length b.cells) fits,
            );
            written_bytes = All-append IsByte b.written bs v.written_bytes h;
            cell_bytes = All-drop IsByte (length bs) b.cells v.cell_bytes;
          })))
      (λ _ e. cc)

-- A packet that is written to a cleared buffer.
pub overlay-IsEntry :
    (bs : List ℕ) → length bs ≤ max_cmd_len → All IsByte bs → IsEntry (overlay bs zeroed.cells)
unfolding overlay zeroed
overlay-IsEntry bs h v = record {
  size = omega (
    arith,
    length-append bs (drop (length bs) (replicate 300 0)),
    length-drop (length bs) (replicate {A = ℕ} 300 0),
  );
  bytes =
      All-append IsByte bs _ v
        (All-drop IsByte (length bs) _ (All-replicate IsByte 300 0 (omega arith)));
}
