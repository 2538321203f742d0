-- ===== src/Closet/Routines.antt =====
-- The timed routines of the main loop (`comprobar_rutinas` in src/main/main.cpp) and its clock
-- (src/main/include/contador/contador.c). Times are whole seconds: a double holds them exactly, and
-- so do the int variables below 2 ^ 31.
use hydroponic_closet.Prelude.{
  ℕ, zero, suc, ◌+◌, Bool, true, false, not, List, [], ◌∷◌, ◌++◌, if◌then◌else◌,
}
use hydroponic_closet.Prelude.Int.{ℤ, pos, sub_ℕ, ltb_ℤ}
use hydroponic_closet.Closet.Gpio.{Call}
use hydroponic_closet.Closet.Water.{enable_water_flow, disable_water_flow}

-- Calls of the Wi-Fi driver.
pub data Radio : Type 0 where
  disable_wifi_wakeup enable_wifi_wakeup : Radio

pub record Closet : Type 0 where
  pub flag_leds : Bool
  pub flag_bomba : Bool
  pub time_ant : ℕ
  pub time_bomba : ℕ
  pub flag_modem : Bool
  pub time_off_modem : ℕ
  pub time_on_modem : ℕ
  pub reads : ℕ  -- how often the clock was read
  pub water : List Call  -- the driver calls for the water circuit, the oldest first
  pub radio : List Radio

-- `clock k` is what the k-th call of `time` delivers; `tick` is portTICK_PERIOD_MS.
module _ (clock : ℕ → ℕ) (tick : ℕ) where
  unfoldable pub get_time : ℕ → ℕ
  get_time reads = clock reads

  unfoldable pub duration : ℕ → ℕ → ℤ
  unfolding get_time
  duration reads ant = sub_ℕ (get_time reads) ant

  -- The globals at start-up, `time_off_modem` after app_main has set it.
  unfoldable pub initial : Closet
  unfolding get_time
  initial = record {
    flag_leds = true;
    flag_bomba = false;
    time_ant = 0;
    time_bomba = 0;
    flag_modem = false;
    time_off_modem = get_time 0;
    time_on_modem = 0;
    reads = 1;
    water = [];
    radio = [];
  }

  -- duration(ant) > limit
  abbrev pub elapsed : Closet → ℕ → ℕ → Bool
  elapsed c ant limit = ltb_ℤ (pos limit) (duration c.reads ant)

  -- The first `if`: the pump has run for its time.
  unfoldable pub stop_pump : Closet → Closet
  unfolding duration
  stop_pump c =
      if c.flag_bomba
      then (if elapsed c c.time_bomba 30
          then record c {
            water = c.water ++ disable_water_flow tick;
            flag_bomba = false;
            time_ant = get_time (c.reads + 1);
            reads = c.reads + 2;
          }
          else record c { reads = c.reads + 1 })
      else c

  -- The pump has rested for its time.
  unfoldable pub start_pump : Closet → Closet
  unfolding duration
  start_pump c =
      if elapsed c c.time_ant 60
      then record c {
        water = c.water ++ enable_water_flow tick;
        flag_bomba = true;
        time_bomba = get_time (c.reads + 1);
        flag_leds = not c.flag_leds;
        reads = c.reads + 2;
      }
      else record c { reads = c.reads + 1 }

  unfoldable pub modem_off : Closet → Closet
  unfolding duration
  modem_off c =
      if c.flag_modem
      then (if elapsed c c.time_on_modem 15
          then record c {
            radio = c.radio ++ disable_wifi_wakeup ∷ [];
            flag_modem = false;
            time_off_modem = get_time (c.reads + 1);
            reads = c.reads + 2;
          }
          else record c { reads = c.reads + 1 })
      else c

  unfoldable pub modem_on : Closet → Closet
  unfolding duration
  modem_on c =
      if c.flag_modem
      then c
      else if elapsed c c.time_off_modem 60
      then record c {
        radio = c.radio ++ enable_wifi_wakeup ∷ [];
        flag_modem = true;
        time_on_modem = get_time (c.reads + 1);
        reads = c.reads + 2;
      }
      else record c { reads = c.reads + 1 }

  -- The second `if` holds the pump and, inside the same braces, the modem.
  unfoldable pub comprobar_rutinas : Closet → Closet
  comprobar_rutinas c =
      let d = stop_pump c in if d.flag_bomba then d else modem_on (modem_off (start_pump d))

  -- Rounds of the main loop.
  unfoldable pub rounds : ℕ → Closet → Closet
  rounds zero c = c
  rounds (suc n) c = rounds n (comprobar_rutinas c)
