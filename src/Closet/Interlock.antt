-- ===== src/Closet/Interlock.antt =====
-- The order of the driver calls of water_flow.c: the pump and the valve.
use hydroponic_closet.Prelude.{ℕ, ◌≡◌, ◌⊎◌, refl, List, [], ◌∷◌, ◌++◌, arith}
use hydroponic_closet.Closet.Gpio.{
  pump, valve_enable, valve_switch, fan, red_light, blue_light, Call, pad_select, set_output,
  set_level, delay,
}
use hydroponic_closet.Closet.Water.{enable_water_flow, disable_water_flow, manage_water_flow_rutine}

-- The level that each pin was last set to.
pub record Levels : Type 0 where
  pub at_pump : ℕ
  pub at_enable : ℕ
  pub at_switch : ℕ

abbrev pub after : Call → Levels → Levels
after (pad_select p) l = l
after (set_output p) l = l
after (set_level pump v) l = record l { at_pump = v }
after (set_level valve_enable v) l = record l { at_enable = v }
after (set_level valve_switch v) l = record l { at_switch = v }
after (set_level fan v) l = l
after (set_level red_light v) l = l
after (set_level blue_light v) l = l
after (delay n) l = l

abbrev pub after_all : List Call → Levels → Levels
after_all [] l = l
after_all (c ∷ cs) l = after_all cs (after c l)

-- The pump is off or the valve is open.
abbrev pub IsSafe : Levels → Type 0
IsSafe l = (l.at_pump ≡ 0) ⊎ ((l.at_enable ≡ 1) × (l.at_switch ≡ 1))

-- That holds after every single call.
abbrev pub AlwaysSafe : List Call → Levels → Type 0
AlwaysSafe [] l = IsSafe l
AlwaysSafe (c ∷ cs) l = IsSafe l × AlwaysSafe cs (after c l)

pub AlwaysSafe-append :
    (cs ds : List Call) (l : Levels)
    → AlwaysSafe cs l
    → AlwaysSafe ds (after_all cs l)
    → AlwaysSafe (cs ++ ds) l
AlwaysSafe-append [] ds l p q = q
AlwaysSafe-append (c ∷ cs) ds l p q = (p.0, AlwaysSafe-append cs ds (after c l) p.1 q)

pub after_all-append :
    (cs ds : List Call) (l : Levels) → after_all (cs ++ ds) l ≡ after_all ds (after_all cs l)
after_all-append [] ds l = refl
after_all-append (c ∷ cs) ds l = after_all-append cs ds (after c l)

module _ (tick : ℕ) (l : Levels) where
  pub enable-AlwaysSafe : IsSafe l → AlwaysSafe (enable_water_flow tick) l
  unfolding enable_water_flow
  enable-AlwaysSafe h = ground arith

  pub disable-AlwaysSafe : IsSafe l → AlwaysSafe (disable_water_flow tick) l
  unfolding disable_water_flow
  disable-AlwaysSafe h = ground arith

  -- Started with the pump off or the valve open, a whole watering keeps it so after each of its
  -- calls, and leaves the pump at 0, the valve's enable pin at 1 and its switch pin at 0.
  pub manage_water_flow_rutine-AlwaysSafe :
      IsSafe l
      → AlwaysSafe (manage_water_flow_rutine tick) l
        × (after_all (manage_water_flow_rutine tick) l
            ≡ record { at_pump = 0; at_enable = 1; at_switch = 0 })
  unfolding manage_water_flow_rutine enable_water_flow disable_water_flow
  manage_water_flow_rutine-AlwaysSafe h = (ground arith, refl)
