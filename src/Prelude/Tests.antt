-- ===== src/Prelude/Tests.antt =====
-- Boolean tests on the native numbers, and the conditional of C.
use Prim.Native.Nat.{ℕ, zero, suc, ◌<◌, compare, Ordering}
use mathlib.Core.Path.{◌≡◌, refl}
use mathlib.Core.Logic.{◌↔◌, ◌⊎◌, inl, inr}
use mathlib.Core.Bool.{Bool, true, false, ◌&&◌}
use mathlib.Core.Option.{Option, none, some}
use native.Mathlib.Omega.{arith}

abbrev pub ltb : ℕ → ℕ → Bool
ltb a b = elim (compare a b) [ Ordering.lt ↦ true | _ ↦ false ]

abbrev pub leb : ℕ → ℕ → Bool
leb a b = elim (compare a b) [ Ordering.gt ↦ false | _ ↦ true ]

infix 50 ◌==◌
abbrev pub ◌==◌ : ℕ → ℕ → Bool
a == b = elim (compare a b) [ Ordering.eq ↦ true | _ ↦ false ]

infix 1 if◌then◌else◌
abbrev pub if◌then◌else◌ {ℓ} : {A : Type ℓ} → Bool → A → A → A
if true then x else y = x
if false then x else y = y

pub ==_iff : (a b : ℕ) → ((a == b) ≡ true) ↔ (a ≡ b)
==_iff a b = ground arith

pub Bool-cases : (b : Bool) → (b ≡ true) ⊎ (b ≡ false)
Bool-cases true = inl refl
Bool-cases false = inr refl

-- A property of a conditional, and of a match on an option, from its branches.
module _ {ℓ κ} {B : Type κ} (P : B → Type ℓ) where
  pub if_both : {x y : B} (b : Bool) → (b ≡ true → P x) → (b ≡ false → P y) → P (if b then x else y)
  if_both true p q = p refl
  if_both false p q = q refl

  pub on_some {m} :
      {A : Type m} (o : Option A) {a : B} {f : A → B}
      → (o ≡ none → P a)
      → ((x : A) → o ≡ some x → P (f x))
      → P (elim o [ none ↦ a | some x ↦ f x ])
  on_some none p q = p refl
  on_some (some x) p q = q x refl

pub at_option {ℓ κ} :
    {A : Type κ} (P : Option A → Type ℓ) (o : Option A)
    → (o ≡ none → P none)
    → ((x : A) → o ≡ some x → P (some x))
    → P o
at_option P none p q = p refl
at_option P (some x) p q = q x refl

-- A test of each number below a bound, by evaluation.
unfoldable pub holds_below : (ℕ → Bool) → ℕ → Bool
holds_below p zero = true
holds_below p (suc n) = holds_below p n && p n

pub at_each : (p : ℕ → Bool) (x n : ℕ) → x < n → holds_below p n ≡ true → p x ≡ true
unfolding holds_below
at_each p x zero lt h = elim lt [ ]
at_each p x (suc n) lt h = ground (arith, at_each p x n)
