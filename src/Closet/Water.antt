-- ===== src/Closet/Water.antt =====
-- src/main/include/actuators/WaterFlow/water_flow.c. The functions are the lists of the driver calls
-- that they make, in order; what a call does to the hardware is not modelled here.
use hydroponic_closet.Prelude.{ℕ, ◌/◌, List, [], ◌∷◌, ◌++◌}
use hydroponic_closet.Closet.Gpio.{
  pump, valve_enable, valve_switch, Call, pad_select, set_output, set_level, delay,
}

-- `tick` is portTICK_PERIOD_MS, which the build configures.
module _ (tick : ℕ) where
  unfoldable pub enable_water_flow : List Call
  enable_water_flow =
      set_level valve_enable 1
      ∷ set_level valve_switch 1
      ∷ delay (200 / tick)
      ∷ set_level pump 1
      ∷ []

  unfoldable pub disable_water_flow : List Call
  disable_water_flow =
      set_level pump 0
      ∷ delay (200 / tick)
      ∷ set_level valve_enable 1
      ∷ set_level valve_switch 0
      ∷ []

  unfoldable pub manage_water_flow_rutine : List Call
  manage_water_flow_rutine = enable_water_flow ++ delay (5000 / tick) ∷ disable_water_flow

unfoldable pub config_water_flow_channel : List Call
config_water_flow_channel =
    pad_select pump
    ∷ pad_select valve_enable
    ∷ pad_select valve_switch
    ∷ set_output pump
    ∷ set_output valve_enable
    ∷ set_output valve_switch
    ∷ []
