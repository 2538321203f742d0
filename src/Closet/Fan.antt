-- ===== src/Closet/Fan.antt =====
-- src/main/include/actuators/Fan/Fan.c. A temperature is an integer over 6553600.
use hydroponic_closet.Prelude.{ℕ, Bool, not, ◌&&◌, ◌||◌, false, List, [], ◌∷◌, if◌then◌else◌}
use hydroponic_closet.Prelude.Int.{ℤ, pos, ltb_ℤ}
use hydroponic_closet.Closet.Gpio.{Call, pad_select, set_output, set_level, fan}

unfoldable pub config_fan : List Call
config_fan = pad_select fan ∷ set_output fan ∷ []

-- 35.0f over the denominator of a temperature
abbrev pub fan_limit : ℤ
fan_limit = pos 229376000

-- temperature >= 35.0f
abbrev pub is_hot : ℤ → Bool
is_hot temperature = not (ltb_ℤ temperature fan_limit)

-- `fan_state` at start-up
abbrev pub initial_fan_state : Bool
initial_fan_state = false

-- The new `fan_state` and the result, 1 for a change.
unfoldable pub change_fan_state : Bool → ℤ → Bool × ℕ
change_fan_state fan_state temperature =
    if is_hot temperature && not fan_state || not (is_hot temperature) && fan_state
    then (not fan_state, 1)
    else (fan_state, 0)

-- `fan_state` is 0 or 1.
unfoldable pub set_fan_state : Bool → List Call
set_fan_state fan_state = set_level fan (if fan_state then 1 else 0) ∷ []
