-- ===== src/App/Without.antt =====
-- The rounds of the main loop (src/main/main.cpp) while no credentials have come.
use Prim.{⊥}
use hydroponic_closet.Prelude.{◌≡◌, ap, ◌∙◌, Bool, true, false, List, Option, arith, ℕ}
use hydroponic_closet.Bt.Start.{Controller, init_bt}
use hydroponic_closet.Closet.Station.{Station}
use hydroponic_closet.Closet.Credentials.{Credentials}
use hydroponic_closet.App.Invariant.{NextHolds}
use hydroponic_closet.App.{
  File, missing, directory, regular, Round, App, Next, connect_wifi, read_file, load_credentials,
  after_init_bt, branch, app_round,
}

-- There is something at the path of the configuration file.
abbrev pub is_there : File → Bool
is_there missing = false
is_there directory = true
is_there (regular assigned c) = true

module _ (api : Controller) (scan : List ℕ → Option Credentials) (release : Bool) where
  -- No credentials have come.
  pub record IsWithout (a : App api scan release) : Type 0 where
    pub none_received : a.credentials_recived ≡ false
    pub off : a.station.wifi_ok ≡ false

  -- The closet is not online, nor on the way there.
  abbrev pub NextIsWithout : Next api scan release → Type 0
  NextIsWithout = NextHolds api scan release IsWithout (λ _. ⊥) (λ r. is_there r.file ≡ true)

  -- Without credentials a round leads to `init_bt`.
  pub app_round_without :
      (r : Round) (a : App api scan release)
      → IsWithout a
      → app_round api scan release r a
        ≡ after_init_bt api scan release r
            (init_bt api r.storage release r.created r.readings a.controller)
            a
  unfolding app_round connect_wifi branch
  app_round_without r a v = simp (v.none_received, v.off)

  -- Reading the file changes the credentials only.
  pub read_file_keeps :
      (assigned : ℕ) (c : Credentials) (a : App api scan release)
      → let b = read_file api scan release assigned c a in
        (b.credentials_recived ≡ a.credentials_recived) × (b.station ≡ a.station)
  unfolding read_file
  read_file_keeps assigned c a = ground arith

  -- A file or a directory in its place leaves the closet without credentials.
  pub load_credentials-IsWithout :
      (r : Round) (file : File) (a : App api scan release)
      → is_there file ≡ true
      → IsWithout a
      → NextIsWithout (load_credentials api scan release r file a)
  unfolding load_credentials
  load_credentials-IsWithout r missing a t v = cc
  load_credentials-IsWithout r directory a t v = v
  load_credentials-IsWithout r (regular assigned c) a t v =
      let (k, s) = read_file_keeps assigned c a in
      record {
        none_received = k ∙ v.none_received;
        off = ap (λ (x : Station). x.wifi_ok) s ∙ v.off;
      }
