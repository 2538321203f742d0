-- ===== src/App/Program/Safe.antt =====
-- What holds of a run of the whole program (src/main/main.cpp), whatever it meets.
use Prim.{tt}
use mathlib.Core.Path.{subst}
use hydroponic_closet.Prelude.{
  ℕ, ◌≡◌, refl, length, Bool, List, [], ◌++◌, Option, none, some, All, inl, sym, if_both,
}
use hydroponic_closet.Bt.Start.{Controller}
use hydroponic_closet.Closet.Credentials.{Credentials}
use hydroponic_closet.Closet.Sensors.{I2cRead}
use hydroponic_closet.Closet.Interlock.{AlwaysSafe}
use hydroponic_closet.Closet.Routines.{Closet, initial}
use hydroponic_closet.Closet.Cycle.{low, rounds-initial-IsConsistent}
use hydroponic_closet.App.{Round, App, Next, again, online, stopped}
use hydroponic_closet.App.StartUp.{AppCall, start_up}
use hydroponic_closet.App.Online.{Online, online_loop, online_loop_closet}
use hydroponic_closet.App.Online.Reports.{IsReport, DeliversBytes, online_loop-IsReport}
use hydroponic_closet.App.Origin.{IsFromPeer, online-IsFromPeer}
use hydroponic_closet.App.Program.{
  Outside, Run, start_globals, reached_online, go_online, run_program,
}
use hydroponic_closet.App.Program.SetUp.{pin_calls, IsSetUp, behind_set_up, start_up-AreSetUp}

-- A closet that never got online has sent nothing and made no call for the water circuit; one that
-- did has its credentials from the peer, in one of its rounds.
module _ {api : Controller} {scan : List ℕ → Option Credentials} {release : Bool} (s : api.S)
    (rs : List Round) where
  abbrev pub IsEarned : Option (App api scan release) → Online → Type 0
  IsEarned none o = (o.sent ≡ []) × (o.closet.water ≡ [])
  IsEarned (some a) o = IsFromPeer api scan release s rs a.credentials

  pub record IsSafeRun (token : List ℕ) (r : Run api scan release) : Type 0 where
    pub pump : AlwaysSafe (pin_calls r.calls ++ r.globals.closet.water) low
    pub reports : All (IsReport token) r.globals.sent
    pub earned : IsEarned r.reached r.globals

module _ (clock : ℕ → ℕ) (tick : ℕ) where
  start_reports : (token : List ℕ) → All (IsReport token) (start_globals clock tick).sent
  unfolding start_globals
  start_reports token = tt

  loop_safe :
      (token : List ℕ) (inputs : List ((I2cRead → ℕ × ℕ) × Bool))
      → AlwaysSafe (online_loop token clock tick inputs (start_globals clock tick)).closet.water low
  unfolding start_globals
  loop_safe token inputs =
      subst (λ c. AlwaysSafe (Closet.water c) low)
        (sym (online_loop_closet token clock tick inputs (start_globals clock tick)))
        (rounds-initial-IsConsistent clock tick (length inputs)).safe

module _ (api : Controller) (scan : List ℕ → Option Credentials) (release : Bool) (token : List ℕ)
    (clock : ℕ → ℕ) (tick : ℕ) (s : api.S) (rs : List Round) where
  behind_start :
      (calls : List AppCall) (reached : Option (App api scan release)) (g : Online)
      → All IsSetUp calls
      → AlwaysSafe g.closet.water low
      → All (IsReport token) g.sent
      → IsEarned s rs reached g
      → IsSafeRun s rs token (record { calls = calls; reached = reached; globals = g })
  behind_start calls reached g quiet safe reports earned = record {
    pump = behind_set_up calls g.closet.water low quiet (inl refl) safe;
    reports = reports;
    earned = earned;
  }

  -- A run that does not get online.
  offline :
      (calls : List AppCall)
      → All IsSetUp calls
      → IsSafeRun {api = api} {scan = scan} {release = release} s rs token
          (record { calls = calls; reached = none; globals = start_globals clock tick })
  unfolding start_globals initial
  offline calls quiet =
      behind_start calls none (start_globals clock tick) quiet (inl refl) tt (refl, refl)

  -- What follows the start-up, from the end of the rounds on.
  behind_rounds :
      (calls : List AppCall) (inputs : List ((I2cRead → ℕ × ℕ) × Bool)) (n : Next api scan release)
      → All IsSetUp calls
      → All DeliversBytes inputs
      → ((a : App api scan release) → n ≡ online a → IsFromPeer api scan release s rs a.credentials)
      → let o = reached_online api scan release n in
        IsSafeRun s rs token (record {
          calls = calls;
          reached = o;
          globals = go_online api scan release token clock tick inputs o;
        })
  behind_rounds calls inputs (again a) quiet bytes h = offline calls quiet
  behind_rounds calls inputs stopped quiet bytes h = offline calls quiet
  behind_rounds calls inputs (online a) quiet bytes h =
      behind_start calls (some a) _ quiet (loop_safe clock tick token inputs)
        (online_loop-IsReport token clock tick inputs (start_globals clock tick) bytes
          (start_reports clock tick token))
        (h a refl)

module _ (api : Controller) (scan : List ℕ → Option Credentials) (release : Bool) (token : List ℕ)
    (clock : ℕ → ℕ) (tick : ℕ) where
  -- If the bus delivers bytes, then in a run of the program, whatever it meets: after each call on
  -- the pins, those before the loop included, the pump is off or the valve open; each call of the
  -- telemetry client is a connection to the server or a report within the sensors' range; and the
  -- closet either sends nothing and makes no call for the water circuit, or gets online with
  -- credentials that came in a file of the peer: one of the run's rounds began without any, init_bt
  -- returned in it, there was no configuration file, and when the loop that waits for a file had
  -- found none so far, the callback returned from packets and left the name "wifi.config" in `fi`
  -- and in `content` a text in which sscanf finds these credentials.
  pub run_program-IsSafeRun :
      (x : Outside) (s : api.S)
      → All DeliversBytes x.online_inputs
      → IsSafeRun s x.rounds token (run_program api scan release token clock tick x s)
  unfolding run_program
  run_program-IsSafeRun x s bytes =
      let p = start_up x.config_succeeds x.net_succeeds x.storage in
      let quiet = start_up-AreSetUp x.config_succeeds x.net_succeeds x.storage in
      if_both (IsSafeRun s x.rounds token) p.goes_on
        (λ _.
          behind_rounds api scan release token clock tick s x.rounds p.made x.online_inputs _ quiet
            bytes (λ a. online-IsFromPeer api scan release s x.rounds a))
        (λ _. offline api scan release token clock tick s x.rounds p.made quiet)
