-- ===== src/App/StoredFile.antt =====
-- What becomes of a configuration file in the file system (src/main/main.cpp).
use Prim.{tt, ⊥}
use hydroponic_closet.Prelude.{
  ◌≡◌, ◌≢◌, refl, Bool, true, List, Option, none, some, if_both, All, ℕ,
}
use hydroponic_closet.Bt.Start.{Controller, Init}
use hydroponic_closet.Closet.Credentials.{Credentials}
use hydroponic_closet.App.Invariant.{app_main-NextHolds, at_online}
use hydroponic_closet.App.{Round, App, online, initial, runs_on, after_init_bt, app_round, app_main}
use hydroponic_closet.App.Without.{
  is_there, IsWithout, NextIsWithout, app_round_without, load_credentials-IsWithout,
}

module _ (api : Controller) (scan : List ℕ → Option Credentials) (release : Bool) where
  after_init_bt-IsWithout :
      (r : Round) (o : Option (Init api)) (a : App api scan release)
      → is_there r.file ≡ true
      → IsWithout api scan release a
      → NextIsWithout api scan release (after_init_bt api scan release r o a)
  unfolding after_init_bt
  after_init_bt-IsWithout r none a t v = tt
  after_init_bt-IsWithout r (some i) a t v =
      if_both (NextIsWithout api scan release) (runs_on api scan release i.ending)
        (λ _.
          load_credentials-IsWithout api scan release r r.file _ t
            (record { none_received = v.none_received; off = v.off }))
        (λ _. tt)

  app_round-IsWithout :
      (r : Round) (a : App api scan release)
      → is_there r.file ≡ true
      → IsWithout api scan release a
      → NextIsWithout api scan release (app_round api scan release r a)
  app_round-IsWithout r a t v =
      rw (app_round_without api scan release r a v) (after_init_bt-IsWithout r _ a t v)

  -- If in each round something is at the path of the configuration file, the closet never gets
  -- online, however many rounds it goes through and whatever credentials the file holds.
  pub app_main-ne-online :
      (rs : List Round) (s : api.S) (a : App api scan release)
      → All (λ (r : Round). is_there r.file ≡ true) rs
      → app_main api scan release rs (initial api scan release s) ≢ online a
  unfolding initial
  app_main-ne-online rs s a t =
      let IsThere : Round → Type 0 = λ r. is_there r.file ≡ true in
      at_online api scan release (IsWithout api scan release) (λ _. ⊥) IsThere _ a
        (app_main-NextHolds api scan release (IsWithout api scan release) (λ _. ⊥) IsThere
          app_round-IsWithout rs (initial api scan release s) t
          (record { none_received = refl; off = refl }))
