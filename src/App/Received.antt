-- ===== src/App/Received.antt =====
-- The rounds of the main loop (src/main/main.cpp) once credentials have come.
use Prim.{Unit, tt}
use hydroponic_closet.Prelude.{◌≡◌, refl, Bool, true, List, Option, if_both, ℕ}
use hydroponic_closet.Bt.Start.{Controller}
use hydroponic_closet.Closet.Credentials.{Credentials}
use hydroponic_closet.Closet.Wifi.{StaEnd, aborted, waiting, returned}
use hydroponic_closet.App.Invariant.{NextHolds, AllRounds, app_main-NextHolds}
use hydroponic_closet.App.{
  Round, App, Next, connect_wifi, after_sta, branch, after_connect, app_round, app_main,
}

module _ (api : Controller) (scan : List ℕ → Option Credentials) (release : Bool) where
  -- What stays once the credentials of `a` have been received.
  pub record Keeps (a b : App api scan release) : Type 0 where
    pub still_received : b.credentials_recived ≡ true
    pub same_credentials : b.credentials ≡ a.credentials
    pub no_bluetooth : b.bt_calls ≡ a.bt_calls
    pub same_controller : b.controller ≡ a.controller

  abbrev pub NextKeeps : App api scan release → Next api scan release → Type 0
  NextKeeps a = NextHolds api scan release (Keeps a) (Keeps a) (λ _. Unit)

  branch-Keeps :
      (r : Round) (a b : App api scan release)
      → Keeps a b
      → NextKeeps a (branch api scan release r b)
  unfolding branch
  branch-Keeps r a b k =
      let got : b.credentials_recived ≡ true = k.still_received in
      if_both (NextKeeps a) b.station.wifi_ok (λ _. k)
        (λ _. if_both (NextKeeps a) b.credentials_recived (λ _. k) (λ none_yet. cc))

  after_sta-Keeps :
      (r : Round) (a b : App api scan release) (e : StaEnd)
      → Keeps a b
      → NextKeeps a (after_connect api scan release r (after_sta api scan release b e))
  after_sta-Keeps r a b (returned s) k = branch-Keeps r a _ (record {
    still_received = k.still_received;
    same_credentials = k.same_credentials;
    no_bluetooth = k.no_bluetooth;
    same_controller = k.same_controller;
  })
  after_sta-Keeps r a b StaEnd.overrun k = tt
  after_sta-Keeps r a b aborted k = tt
  after_sta-Keeps r a b waiting k = tt

  pub app_round-Keeps :
      (r : Round) (a b : App api scan release)
      → Keeps a b
      → NextKeeps a (app_round api scan release r b)
  unfolding app_round connect_wifi
  app_round-Keeps r a b k =
      if_both (λ o. NextKeeps a (after_connect api scan release r o)) b.credentials_recived
        (λ _. after_sta-Keeps r a b _ k) (λ _. branch-Keeps r a b k)

  pub itself : (a : App api scan release) → a.credentials_recived ≡ true → Keeps a a
  itself a h = record {
    still_received = h;
    same_credentials = refl;
    no_bluetooth = refl;
    same_controller = refl;
  }

  -- Once credentials have been received, they are never given up: in all later rounds and online,
  -- however often the connection fails with them, the closet holds the same credentials, and has
  -- made no call to start Bluetooth again nor changed the state of its controller.
  pub app_main-NextKeeps :
      (rs : List Round) (a : App api scan release)
      → a.credentials_recived ≡ true
      → NextKeeps a (app_main api scan release rs a)
  app_main-NextKeeps rs a h =
      app_main-NextHolds api scan release (Keeps a) (Keeps a) (λ _. Unit)
        (λ r b _. app_round-Keeps r a b) rs a (AllRounds rs) (itself a h)
