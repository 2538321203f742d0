-- ===== src/Closet/Lights.antt =====
-- src/main/include/actuators/leds/leds.c, as lists of driver calls.
use hydroponic_closet.Prelude.{ℕ, List, [], ◌∷◌}
use hydroponic_closet.Closet.Gpio.{Call, pad_select, set_output, set_level, red_light, blue_light}

unfoldable pub config_lights : List Call
config_lights =
    pad_select red_light ∷ pad_select blue_light ∷ set_output red_light ∷ set_output blue_light ∷ []

unfoldable pub change_light_state : ℕ → ℕ → List Call
change_light_state red_state blue_state =
    set_level red_light red_state ∷ set_level blue_light blue_state ∷ []
