-- ===== src/Bt/Receive/Copy.antt =====
-- The copying loops of `obex_ftp`: what they leave in the array, and when they run past its end.
use mathlib.Core.Path.{ap₂}
use mathlib.Core.List.{append_assoc}
use native.Mathlib.Decide.{dec_lt}
use native.Mathlib.Nat.{add-zero, zero-add}
use hydroponic_closet.Prelude.{
  ℕ, zero, suc, ◌+◌, ◌*◌, ◌≤◌, ◌<◌, ◌≡◌, refl, ap, sym, ◌∙◌, List, [], ◌∷◌, ◌++◌, Option, none,
  some, arith, true, false, length, length-append, length-set, length-drop, drop, set, ltb,
}
use hydroponic_closet.Bt.State.{Packet}
use hydroponic_closet.Bt.Put.{copy_bytes, end_string}

-- The bytes at `j`, `j + stride`, …
unfoldable pub gather : ℕ → ℕ → Packet → ℕ → List ℕ
gather zero stride packet j = []
gather (suc n) stride packet j = packet j ∷ gather n stride packet (j + stride)

pub below : (a b : ℕ) → a < b → ltb a b ≡ true
below a b h = ground arith

pub not_below : (a b : ℕ) → b ≤ a → ltb a b ≡ false
not_below a b h = ground arith

-- A write at the end of a prefix.
set-append :
    (pre : List ℕ) (x : ℕ) (xs : List ℕ) (v : ℕ)
    → set (pre ++ x ∷ xs) (length pre) v ≡ pre ++ v ∷ xs
set-append [] x xs v = refl
set-append (p ∷ pre) x xs v = ap (λ t. p ∷ t) (set-append pre x xs v)

-- With room in the array the loop stores the `n` bytes that lie before `stop`, from `x` on.
copy_fits :
    (n rounds stride : ℕ) (packet : Packet) (j stop x : ℕ) (pre post buffer : List ℕ)
    → x ≡ length pre
    → buffer ≡ pre ++ post
    → n ≤ rounds
    → stop ≤ j + n * stride
    → ((k : ℕ) → k < n → j + k * stride < stop)
    → n ≤ length post
    → copy_bytes rounds stride packet j stop x buffer
      ≡ some (pre ++ (gather n stride packet j ++ drop n post), x + n)
unfolding copy_bytes gather
copy_fits zero zero stride packet j stop x pre post buffer ex eb a c d e = rw (add-zero, eb)
copy_fits zero (suc rounds) stride packet j stop x pre post buffer ex eb a c d e =
    rw (not_below j stop (omega arith), add-zero, eb)
copy_fits (suc n) zero stride packet j stop x pre post buffer ex eb a c d e = elim a [ ]
copy_fits (suc n) (suc rounds) stride packet j stop x pre [] buffer ex eb a c d e = elim e [ ]
copy_fits (suc n) (suc rounds) stride packet j stop x pre (y ∷ post) buffer ex eb a c d e =
    rw (below j stop (grind (arith, d 0)), below x (length buffer) room)
      (copy_fits n rounds stride packet (j + stride) stop (x + 1) (pre ++ packet j ∷ []) post
          (set buffer x (packet j)) (omega (arith, length-append pre (packet j ∷ []))) stored
          (omega arith) (omega arith) (λ k h. omega (arith, d (suc k) (omega arith))) (omega arith)
        ∙ ap₂ (λ (b : List ℕ) (m : ℕ). some (b, m)) regroup (omega arith))
  where
    room : x < length buffer
    room = omega (arith, ap length eb, length-append pre (y ∷ post))

    stored : set buffer x (packet j) ≡ (pre ++ packet j ∷ []) ++ post
    stored =
        rw (eb, ex) (set-append pre y post (packet j) ∙ sym (append_assoc pre (packet j ∷ []) post))

    rest : List ℕ
    rest = gather n stride packet (j + stride) ++ drop n post

    regroup : (pre ++ packet j ∷ []) ++ rest ≡ pre ++ packet j ∷ rest
    regroup = append_assoc pre (packet j ∷ []) rest

-- Without room it writes past the end.
copy_overruns :
    (n rounds stride : ℕ) (packet : Packet) (j stop x : ℕ) (buffer : List ℕ)
    → n ≤ rounds
    → ((k : ℕ) → k < n → j + k * stride < stop)
    → length buffer < x + n
    → x ≤ length buffer
    → copy_bytes rounds stride packet j stop x buffer ≡ none
unfolding copy_bytes
copy_overruns zero rounds stride packet j stop x buffer a d e f = absurd (omega arith)
copy_overruns (suc n) zero stride packet j stop x buffer a d e f = elim a [ ]
copy_overruns (suc n) (suc rounds) stride packet j stop x buffer a d e f =
    rw (below j stop (grind (arith, d 0))) (elim (dec_lt x (length buffer)) [
      | yes room ↦ rw (below x (length buffer) room) (
          copy_overruns n rounds stride packet (j + stride) stop (x + 1) (set buffer x (packet j))
            (omega arith) (λ k h. omega (arith, d (suc k) (omega arith)))
            (omega (arith, length-set buffer x (packet j)))
            (omega (arith, length-set buffer x (packet j))))
      | no full ↦ rw (not_below x (length buffer) (omega arith))
    ])

length-gather : (n stride : ℕ) (packet : Packet) (j : ℕ) → length (gather n stride packet j) ≡ n
unfolding gather
length-gather zero stride packet j = refl
length-gather (suc n) stride packet j = ap suc (length-gather n stride packet (j + stride))

drop_cons : (n : ℕ) (xs : List ℕ) → n < length xs → (x : ℕ) × (drop n xs ≡ x ∷ drop (suc n) xs)
drop_cons n [] h = elim h [ ]
drop_cons zero (x ∷ xs) h = (x, refl)
drop_cons (suc n) (x ∷ xs) h = drop_cons n xs (omega arith)

-- The closing zero behind a prefix of length `n`.
close_string :
    (n : ℕ) (g buffer : List ℕ)
    → length g ≡ n
    → n < length buffer
    → end_string (some (g ++ drop n buffer, n)) ≡ some (g ++ 0 ∷ drop (suc n) buffer)
unfolding end_string
close_string n g buffer e room =
    let (y, split) = drop_cons n buffer room in
    let stored : set (g ++ drop n buffer) n 0 ≡ g ++ 0 ∷ drop (suc n) buffer =
      rw (split, ← e) (set-append g y _ 0) in
    rw (
      below n (length (g ++ drop n buffer))
          (omega (arith, length-append g (drop n buffer), length-drop n buffer)),
      stored,
    )

module _ (packet : Packet) (i n stride off len : ℕ) (buffer : List ℕ) where
  -- The whole of a copy with its closing zero: the loop from `i + off` to `i + len`.
  abbrev copied : Option (List ℕ)
  copied = end_string (copy_bytes (len + i) stride packet (i + off) (len + i) 0 buffer)

  module _ (covers : len ≤ off + n * stride) (within : (k : ℕ) → k < n → off + k * stride < len)
      (step : n ≤ len) where
    inside : (k : ℕ) → k < n → i + off + k * stride < len + i
    inside k h = omega (arith, within k h)

    stored :
        n ≤ length buffer
        → copy_bytes (len + i) stride packet (i + off) (len + i) 0 buffer
          ≡ some (gather n stride packet (i + off) ++ drop n buffer, n)
    stored room =
        copy_fits n (len + i) stride packet (i + off) (len + i) 0 [] buffer buffer refl refl
          (omega arith) (omega arith) inside room
        ∙ ap (λ (m : ℕ). some (gather n stride packet (i + off) ++ drop n buffer, m)) (zero-add n)

    pub copied_fits :
        n < length buffer
        → copied ≡ some (gather n stride packet (i + off) ++ 0 ∷ drop (suc n) buffer)
    unfolding end_string
    copied_fits room =
        rw (stored (omega arith))
          (close_string n _ buffer (length-gather n stride packet (i + off)) room)

    pub copied_overruns : length buffer ≤ n → copied ≡ none
    unfolding end_string
    copied_overruns full = elim (dec_lt (length buffer) n) [
      | yes less ↦ rw (
          copy_overruns n (len + i) stride packet (i + off) (len + i) 0 buffer (omega arith) inside
            (omega arith) (omega arith))
      | no same ↦ rw (
        stored (omega arith),
        not_below n (length (gather n stride packet (i + off) ++ drop n buffer)) (
            omega (
              arith,
              length-append (gather n stride packet (i + off)) (drop n buffer),
              length-gather n stride packet (i + off),
              length-drop n buffer,
            )),
      )
    ]
