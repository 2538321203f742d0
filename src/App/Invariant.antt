-- ===== src/App/Invariant.antt =====
-- Invariants of the rounds of the main loop (src/main/main.cpp).
use Prim.{Unit, tt}
use mathlib.Core.Path.{subst}
use hydroponic_closet.Prelude.{ℕ, ◌≡◌, Bool, List, [], ◌∷◌, Option, All}
use hydroponic_closet.Bt.Start.{Controller}
use hydroponic_closet.Closet.Credentials.{Credentials}
use hydroponic_closet.App.{
  Round, App, again, online, stopped, Next, app_round, after_round, app_main,
}

-- No condition on the rounds.
pub AllRounds : (rs : List Round) → All (λ _. Unit {0}) rs
AllRounds [] = tt
AllRounds (r ∷ rs) = (tt, AllRounds rs)

-- `P` holds before the next round, `Q` of an online closet, in rounds that meet `R`.
module _ (api : Controller) (scan : List ℕ → Option Credentials) (release : Bool)
    (P Q : App api scan release → Type 0) (R : Round → Type 0) where
  abbrev pub NextHolds : Next api scan release → Type 0
  NextHolds (again a) = P a
  NextHolds (online a) = Q a
  NextHolds stopped = Unit

  after_round-NextHolds :
      (next : App api scan release → Next api scan release) (n : Next api scan release)
      → NextHolds n
      → ((a : App api scan release) → P a → NextHolds (next a))
      → NextHolds (after_round api scan release next n)
  after_round-NextHolds next (again a) v h = h a v
  after_round-NextHolds next (online a) v h = v
  after_round-NextHolds next stopped v h = tt

  -- What each round keeps, all of them keep.
  pub app_main-NextHolds :
      ((r : Round) (a : App api scan release)
        → R r
        → P a
        → NextHolds (app_round api scan release r a))
      → (rs : List Round) (a : App api scan release) → All R rs
      → P a
      → NextHolds (app_main api scan release rs a)
  unfolding app_main
  app_main-NextHolds each [] a t v = v
  app_main-NextHolds each (r ∷ rs) a t v =
      after_round-NextHolds (app_main api scan release rs) (app_round api scan release r a)
        (each r a t.0 v) (λ b. app_main-NextHolds each rs b t.1)

  pub at_online :
      (n : Next api scan release) (a : App api scan release) → NextHolds n → n ≡ online a → Q a
  at_online (again b) a v e = cc
  at_online (online b) a v e = let same : b ≡ a = cc in subst Q same v
  at_online stopped a v e = cc
