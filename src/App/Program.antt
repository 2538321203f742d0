-- ===== src/App/Program.antt =====
-- A run of the whole program from reset up to the next restart: `app_main` (src/main/main.cpp) with
-- the calls before its loop, the rounds until the closet is online, and the loop of an online closet.
pub mod SetUp
pub mod Safe
use hydroponic_closet.Prelude.{ℕ, Bool, List, [], ◌∷◌, Option, none, some, if◌then◌else◌}
use hydroponic_closet.Prelude.Int.{pos}
use hydroponic_closet.Esp.{Performed}
use hydroponic_closet.Nvs.{Nvs}
use hydroponic_closet.Bt.Start.{Controller}
use hydroponic_closet.Closet.Credentials.{Credentials}
use hydroponic_closet.Closet.Sensors.{I2cRead}
use hydroponic_closet.Closet.Routines.{initial as initial_closet}
use hydroponic_closet.App.{Round, App, again, online, stopped, Next, initial, app_main}
use hydroponic_closet.App.StartUp.{AppCall, start_up}
use hydroponic_closet.App.Online.{Online, online_loop}

-- What a run meets: what the calls before the loop report, the flash storage, the rounds of
-- `while(1)`, and for each round online what the bus delivers and whether the client is connected.
pub record Outside : Type 0 where
  pub config_succeeds : ℕ → Bool
  pub net_succeeds : ℕ → Bool
  pub storage : Nvs
  pub rounds : List Round
  pub online_inputs : List ((I2cRead → ℕ × ℕ) × Bool)

-- The globals that the online loop changes, with `time_off_modem` set.
unfoldable pub start_globals : (ℕ → ℕ) → ℕ → Online
start_globals clock tick = record {
  temperatura = pos 0;
  humedad = pos 0;
  sent = [];
  closet = initial_closet clock tick;
}

module _ (api : Controller) (scan : List ℕ → Option Credentials) (release : Bool) where
  open api use {S}

  pub record Run : Type 0 where
    pub calls : List AppCall  -- before the loop
    pub reached : Option (App api scan release)  -- the state with which the closet got online
    pub globals : Online

  abbrev pub reached_online : Next api scan release → Option (App api scan release)
  reached_online (again a) = none
  reached_online (online a) = some a
  reached_online stopped = none

  -- The rounds until the closet is online.
  abbrev pub until_online : List Round → S → Option (App api scan release)
  until_online rounds s =
      reached_online (app_main api scan release rounds (initial api scan release s))

  module _ (token : List ℕ) (clock : ℕ → ℕ) (tick : ℕ) where
    abbrev pub go_online : List ((I2cRead → ℕ × ℕ) × Bool) → Option (App api scan release) → Online
    go_online inputs none = start_globals clock tick
    go_online inputs (some a) = online_loop token clock tick inputs (start_globals clock tick)

    unfoldable pub run_program : Outside → S → Run
    run_program x s =
        let p = start_up x.config_succeeds x.net_succeeds x.storage in
        let o = until_online x.rounds s in
        if p.goes_on
        then record { calls = p.made; reached = o; globals = go_online x.online_inputs o }
        else record { calls = p.made; reached = none; globals = start_globals clock tick }
