-- ===== src/App/StartUp.antt =====
-- What `app_main` (src/main/main.cpp) does before its loop, as the list of its calls.
use hydroponic_closet.Prelude.{ℕ, Bool, List, [], ◌∷◌, ◌++◌, map, if◌then◌else◌}
use hydroponic_closet.Esp.{Step, plain, checked, Performed, perform}
use hydroponic_closet.Nvs.{Nvs, NvsCall, app_main_nvs}
use hydroponic_closet.Closet.Gpio.{Call}
use hydroponic_closet.Closet.Water.{config_water_flow_channel}
use hydroponic_closet.Closet.Fan.{config_fan}
use hydroponic_closet.Closet.Sensors.{I2cCall, config_i2c_channel}

pub data AppCall : Type 0 where
  gpio : Call → AppCall
  i2c : I2cCall → AppCall
  nvs : NvsCall → AppCall
  netif_init event_loop_create : AppCall  -- esp_netif_init, esp_event_loop_create_default

abbrev pub plain_gpio : Call → Step AppCall
plain_gpio c = plain (gpio c)

abbrev pub i2c_step : Step I2cCall → Step AppCall
i2c_step (plain c) = plain (i2c c)
i2c_step (checked c) = checked (i2c c)

-- The first calls, each of a function of its own.
unfoldable pub config_steps : List (Step AppCall)
config_steps =
    map plain_gpio config_water_flow_channel
    ++ map i2c_step config_i2c_channel
    ++ map plain_gpio config_fan

unfoldable pub net_steps : List (Step AppCall)
net_steps = checked netif_init ∷ checked event_loop_create ∷ []

-- One part behind another, if the program goes on.
abbrev pub and_then : Performed AppCall → Performed AppCall → Performed AppCall
and_then p q = if p.goes_on then record { made = p.made ++ q.made; goes_on = q.goes_on } else p

abbrev pub nvs_part : Performed NvsCall → Performed AppCall
nvs_part p = record { made = map nvs p.made; goes_on = p.goes_on }

-- `succeeds` and `net_succeeds` are what the calls of the first and the last part report.
unfoldable pub start_up : (ℕ → Bool) → (ℕ → Bool) → Nvs → Performed AppCall
start_up succeeds net_succeeds storage =
    and_then (perform succeeds 0 config_steps)
      (and_then (nvs_part (app_main_nvs storage)) (perform net_succeeds 0 net_steps))
