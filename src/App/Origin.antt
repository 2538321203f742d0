-- ===== src/App/Origin.antt =====
-- Where the credentials come from with which the closet goes online (src/main/main.cpp).
pub mod Delivered
use Prim.{Unit, tt}
use mathlib.Core.Path.{subst}
use mathlib.Core.List.{append_assoc}
use hydroponic_closet.Prelude.{
  ℕ, ◌≡◌, refl, sym, ap, ◌∙◌, Bool, true, false, List, [], ◌∷◌, ◌++◌, Option, none, some, arith,
  if_both,
}
use hydroponic_closet.Bt.State.{Packet, Session, Outcome, done, overrun, hang}
use hydroponic_closet.Bt.Handler.{serve}
use hydroponic_closet.Bt.Start.{Controller, Init, init_bt}
use hydroponic_closet.Closet.Station.{Station}
use hydroponic_closet.Closet.Credentials.{c_string, same_string, Credentials, wifi_config, poll}
use hydroponic_closet.App.Without.{read_file_keeps, app_round_without}
use hydroponic_closet.App.Invariant.{NextHolds}
use hydroponic_closet.App.Received.{NextKeeps, app_round-Keeps, itself}
use hydroponic_closet.App.{
  File, missing, directory, regular, Wait, found, still_waiting, lost, after_poll, after_callback,
  poll_arrays, keep_arrays, wait_for_file, Round, App, again, online, stopped, Next, initial,
  after_waiting, load_credentials, runs_on, after_init_bt, after_round, app_round, app_main,
}
use hydroponic_closet.App.Origin.Delivered.{HasFile, wait_for_file-HasFile}

module _ (api : Controller) (scan : List ℕ → Option Credentials) (release : Bool) (s : api.S) where
  -- One of the rounds `rs` of a run from the start of app_main: it began without credentials,
  -- init_bt returned, there was no configuration file, and the credentials were in a file that
  -- the peer sent while the loop waited.
  pub record IsFromPeer (rs : List Round) (c : Credentials) : Type 0 where
    pub earlier : List Round
    pub round : Round
    pub later : List Round
    pub parts : rs ≡ earlier ++ round ∷ later
    pub here : App api scan release
    pub reached : app_main api scan release earlier (initial api scan release s) ≡ again here
    pub none_received : here.credentials_recived ≡ false
    pub init : Init api
    pub started :
        init_bt api round.storage release round.created round.readings here.controller ≡ some init
    pub runs : runs_on api scan release init.ending ≡ true
    pub none_stored : round.file ≡ missing
    pub file : HasFile scan round.deliveries here.session c

  -- Rounds that follow change nothing of it.
  IsFromPeer-append :
      (rs more : List Round) (c : Credentials) → IsFromPeer rs c → IsFromPeer (rs ++ more) c
  IsFromPeer-append rs more c v = record {
    earlier = v.earlier;
    round = v.round;
    later = v.later ++ more;
    parts = ap (λ x. x ++ more) v.parts ∙ append_assoc v.earlier (v.round ∷ v.later) more;
    here = v.here;
    reached = v.reached;
    none_received = v.none_received;
    init = v.init;
    started = v.started;
    runs = v.runs;
    none_stored = v.none_stored;
    file = v.file;
  }

  -- After the rounds `rs`: either no credentials have come yet, or those that the closet holds are
  -- a peer's.
  pub data IsSound (rs : List Round) (a : App api scan release) : Type 0 where
    without : a.credentials_recived ≡ false → a.station.wifi_ok ≡ false → IsSound rs a
    received : a.credentials_recived ≡ true → IsFromPeer rs a.credentials → IsSound rs a

  abbrev FromPeer : List Round → App api scan release → Type 0
  FromPeer rs a = IsFromPeer rs a.credentials

  abbrev NextIsSound : List Round → Next api scan release → Type 0
  NextIsSound rs = NextHolds api scan release (IsSound rs) (FromPeer rs) (λ _. Unit)

  after_waiting-IsSound :
      (rs : List Round) (w : Wait) (a : App api scan release)
      → ((c : Credentials) (t : Session) → w ≡ found c t → IsFromPeer rs c)
      → NextIsSound rs (after_waiting api scan release w a)
  after_waiting-IsSound rs (found c t) a h = received refl (h c t refl)
  after_waiting-IsSound rs (still_waiting t) a h = tt
  after_waiting-IsSound rs lost a h = tt

  -- One round more, after the rounds `past`, which led to `a`.
  module _ (past : List Round) (r : Round) (a : App api scan release)
      (reached : app_main api scan release past (initial api scan release s) ≡ again a) where
    so_far : List Round
    so_far = past ++ r ∷ []

    module _ (h : a.credentials_recived ≡ false) (off : a.station.wifi_ok ≡ false) where
      load_credentials-IsSound :
          (i : Init api) (file : File) (b : App api scan release)
          → init_bt api r.storage release r.created r.readings a.controller ≡ some i
          → runs_on api scan release i.ending ≡ true
          → r.file ≡ file
          → b.credentials_recived ≡ a.credentials_recived
          → b.station ≡ a.station
          → b.session ≡ a.session
          → NextIsSound so_far (load_credentials api scan release r file b)
      unfolding load_credentials so_far
      load_credentials-IsSound i missing b f g n x y z = after_waiting-IsSound so_far _ b (λ c t e.
          record {
            earlier = past;
            round = r;
            later = [];
            parts = refl;
            here = a;
            reached = reached;
            none_received = h;
            init = i;
            started = f;
            runs = g;
            none_stored = n;
            file =
                wait_for_file-HasFile scan r.deliveries a.session t c
                  (ap (wait_for_file scan r.deliveries) (sym z) ∙ e);
          })
      load_credentials-IsSound i directory b f g n x y z =
          without (x ∙ h) (ap (λ (x : Station). x.wifi_ok) y ∙ off)
      load_credentials-IsSound i (regular assigned c) b f g n x y z =
          let (k, l) = read_file_keeps api scan release assigned c b in
          without (k ∙ x ∙ h) (ap (λ (x : Station). x.wifi_ok) (l ∙ y) ∙ off)

      after_init_bt-IsSound :
          (o : Option (Init api))
          → init_bt api r.storage release r.created r.readings a.controller ≡ o
          → NextIsSound so_far (after_init_bt api scan release r o a)
      unfolding after_init_bt
      after_init_bt-IsSound none f = tt
      after_init_bt-IsSound (some i) f =
          if_both (NextIsSound so_far) (runs_on api scan release i.ending)
            (λ g. load_credentials-IsSound i r.file _ f g refl refl refl refl) (λ _. tt)

    kept-IsSound :
        (n : Next api scan release)
        → FromPeer past a
        → NextKeeps api scan release a n
        → NextIsSound so_far n
    unfolding so_far
    kept-IsSound (again b) v k =
        received k.still_received
          (subst (IsFromPeer so_far) (sym k.same_credentials) (IsFromPeer-append past _ _ v))
    kept-IsSound (online b) v k =
        subst (IsFromPeer so_far) (sym k.same_credentials) (IsFromPeer-append past _ _ v)
    kept-IsSound stopped v k = tt

    app_round-IsSound : IsSound past a → NextIsSound so_far (app_round api scan release r a)
    app_round-IsSound (without h off) =
        rw (app_round_without api scan release r a (record { none_received = h; off = off }))
          (after_init_bt-IsSound h off _ refl)
    app_round-IsSound (received h v) =
        kept-IsSound _ v (app_round-Keeps api scan release r a a (itself api scan release a h))

  no_more : (n : Next api scan release) → after_round api scan release again n ≡ n
  no_more (again a) = refl
  no_more (online a) = refl
  no_more stopped = refl

  after_round-onward :
      (past : List Round) (r : Round) (b : App api scan release) (n : Next api scan release)
      → ((m : App api scan release)
          → app_main api scan release past m ≡ again b
          → app_main api scan release (past ++ r ∷ []) m ≡ app_round api scan release r b)
      → after_round api scan release (app_main api scan release past) n ≡ again b
      → after_round api scan release (app_main api scan release (past ++ r ∷ [])) n
        ≡ app_round api scan release r b
  after_round-onward past r b (again m) h f = h m f
  after_round-onward past r b (online m) h f = cc
  after_round-onward past r b stopped h f = cc

  app_main-onward :
      (past : List Round) (r : Round) (a b : App api scan release)
      → app_main api scan release past a ≡ again b
      → app_main api scan release (past ++ r ∷ []) a ≡ app_round api scan release r b
  unfolding app_main
  app_main-onward [] r a b e =
      let same : a ≡ b = cc in
      no_more (app_round api scan release r a) ∙ ap (app_round api scan release r) same
  app_main-onward (q ∷ past) r a b e =
      after_round-onward past r b (app_round api scan release q a) (λ m. app_main-onward past r m b)
        e

  after_round-IsFromPeer :
      (past rs : List Round) (r : Round) (b : App api scan release) (n : Next api scan release)
      → NextIsSound (past ++ r ∷ []) n
      → ((m : App api scan release)
          → n ≡ again m
          → IsSound (past ++ r ∷ []) m
          → app_main api scan release rs m ≡ online b
          → IsFromPeer ((past ++ r ∷ []) ++ rs) b.credentials)
      → after_round api scan release (app_main api scan release rs) n ≡ online b
      → IsFromPeer ((past ++ r ∷ []) ++ rs) b.credentials
  after_round-IsFromPeer past rs r b (again m) w h f = h m refl w f
  after_round-IsFromPeer past rs r b (online m) w h f =
      let same : m ≡ b = cc in
      subst (FromPeer ((past ++ r ∷ []) ++ rs)) same
        (IsFromPeer-append (past ++ r ∷ []) rs m.credentials w)
  after_round-IsFromPeer past rs r b stopped w h f = cc

  rounds-IsFromPeer :
      (rs past : List Round) (a b : App api scan release)
      → app_main api scan release past (initial api scan release s) ≡ again a
      → IsSound past a
      → app_main api scan release rs a ≡ online b
      → IsFromPeer (past ++ rs) b.credentials
  unfolding app_main so_far
  rounds-IsFromPeer [] past a b e v f = cc
  rounds-IsFromPeer (r ∷ rs) past a b e v f =
      subst (λ x. IsFromPeer x b.credentials) (append_assoc past (r ∷ []) rs)
        (after_round-IsFromPeer past rs r b (app_round api scan release r a)
          (app_round-IsSound past r a e v)
          (λ m g w. rounds-IsFromPeer rs (past ++ r ∷ []) m b (app_main-onward past r _ a e ∙ g) w)
          f)

  -- Whatever rounds app_main goes through from its start, and whatever the configuration file
  -- holds: when the closet is online, the credentials in use came in one of these rounds, which
  -- began without any: init_bt returned in it, there was no configuration file, in some rounds of
  -- the loop that waits for a file, or in none, nothing was found, and from the packets of the next
  -- one the callback returned and left the name "wifi.config" in `fi` and in `content` a text in
  -- which sscanf finds these credentials.
  pub online-IsFromPeer :
      (rs : List Round) (a : App api scan release)
      → app_main api scan release rs (initial api scan release s) ≡ online a
      → IsFromPeer rs a.credentials
  unfolding app_main initial
  online-IsFromPeer rs a e = rounds-IsFromPeer rs [] _ a refl (without refl refl) e
