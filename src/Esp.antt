-- ===== src/Esp.antt =====
-- ESP_ERROR_CHECK, which aborts the program if a call of the SDK reports an error. A function of
-- the program that only makes such calls is the list of its calls.
use Prim.{tt}
use hydroponic_closet.Prelude.{
  ℕ, suc, ◌≡◌, refl, ap, Bool, true, false, List, [], ◌∷◌, map, if◌then◌else◌, All, if_both,
}

pub data Step {ℓ} (C : Type ℓ) : Type ℓ where
  plain : C → Step C
  checked : C → Step C  -- ESP_ERROR_CHECK(...)

-- The calls that are made, and whether the program goes on behind them.
pub record Performed {ℓ} (C : Type ℓ) : Type ℓ where
  pub made : List C
  pub goes_on : Bool

module _ {ℓ} {C : Type ℓ} where
  abbrev pub call_of : Step C → C
  call_of (plain c) = c
  call_of (checked c) = c

  abbrev pub before : C → Performed C → Performed C
  before c p = record { made = c ∷ p.made; goes_on = p.goes_on }

  -- `succeeds k` tells whether the k-th of the calls reports ESP_OK.
  unfoldable pub perform : (ℕ → Bool) → ℕ → List (Step C) → Performed C
  perform succeeds k [] = record { made = []; goes_on = true }
  perform succeeds k (plain c ∷ steps) = before c (perform succeeds (suc k) steps)
  perform succeeds k (checked c ∷ steps) =
      let rest = perform succeeds (suc k) steps in
      if succeeds k then before c rest else record { made = c ∷ []; goes_on = false }

  -- If every call reports ESP_OK, all are made and the program goes on.
  pub perform_all :
      (succeeds : ℕ → Bool) (k : ℕ) (steps : List (Step C))
      → ((i : ℕ) → succeeds i ≡ true)
      → perform succeeds k steps ≡ record { made = map call_of steps; goes_on = true }
  unfolding perform
  perform_all succeeds k [] h = refl
  perform_all succeeds k (plain c ∷ steps) h = ap (before c) (perform_all succeeds (suc k) steps h)
  perform_all succeeds k (checked c ∷ steps) h =
      rw (h k) (ap (before c) (perform_all succeeds (suc k) steps h))

  -- What holds of each of the calls holds of those that are made.
  pub perform-All {κ} :
      (P : C → Type κ) (succeeds : ℕ → Bool) (k : ℕ) (steps : List (Step C))
      → All P (map call_of steps)
      → All P (perform succeeds k steps).made
  unfolding perform
  perform-All P succeeds k [] h = tt
  perform-All P succeeds k (plain c ∷ steps) h = (h.0, perform-All P succeeds (suc k) steps h.1)
  perform-All P succeeds k (checked c ∷ steps) h =
      if_both (λ p. All P (Performed.made p)) (succeeds k)
        (λ _. (h.0, perform-All P succeeds (suc k) steps h.1)) (λ _. (h.0, tt))
