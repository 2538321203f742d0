-- ===== src/App/Program/SetUp.antt =====
-- The calls before the loop of `app_main` (src/main/main.cpp) set no pin.
use Prim.{Unit, tt, ⊥}
use hydroponic_closet.Prelude.{ℕ, Bool, List, [], ◌∷◌, ◌++◌, map, All, All-append, if_both}
use hydroponic_closet.Esp.{Performed, perform, perform-All}
use hydroponic_closet.Nvs.{Nvs, NvsCall, app_main_nvs}
use hydroponic_closet.Closet.Gpio.{Call, pad_select, set_output, set_level, delay}
use hydroponic_closet.Closet.Interlock.{Levels, AlwaysSafe, IsSafe}
use hydroponic_closet.Closet.Water.{config_water_flow_channel}
use hydroponic_closet.Closet.Fan.{config_fan}
use hydroponic_closet.Closet.Sensors.{config_i2c_channel}
use hydroponic_closet.App.StartUp.{
  AppCall, gpio, i2c, nvs, netif_init, event_loop_create, config_steps, net_steps, and_then,
  nvs_part, start_up,
}

-- The calls on the pins among those before the loop.
abbrev pub pin_calls : List AppCall → List Call
pin_calls [] = []
pin_calls (gpio c ∷ cs) = c ∷ pin_calls cs
pin_calls (i2c c ∷ cs) = pin_calls cs
pin_calls (nvs c ∷ cs) = pin_calls cs
pin_calls (netif_init ∷ cs) = pin_calls cs
pin_calls (event_loop_create ∷ cs) = pin_calls cs

-- A call that sets no level.
abbrev pub IsSetUp : AppCall → Type 0
IsSetUp (gpio (pad_select p)) = Unit
IsSetUp (gpio (set_output p)) = Unit
IsSetUp (gpio (set_level p v)) = ⊥
IsSetUp (gpio (delay n)) = Unit
IsSetUp (i2c c) = Unit
IsSetUp (nvs c) = Unit
IsSetUp netif_init = Unit
IsSetUp event_loop_create = Unit

-- Such calls leave the levels as they are.
pub behind_set_up :
    (cs : List AppCall) (ds : List Call) (l : Levels)
    → All IsSetUp cs
    → IsSafe l
    → AlwaysSafe ds l
    → AlwaysSafe (pin_calls cs ++ ds) l
behind_set_up [] ds l a h s = s
behind_set_up (gpio (pad_select p) ∷ cs) ds l a h s = (h, behind_set_up cs ds l a.1 h s)
behind_set_up (gpio (set_output p) ∷ cs) ds l a h s = (h, behind_set_up cs ds l a.1 h s)
behind_set_up (gpio (set_level p v) ∷ cs) ds l a h s = elim a.0 [ ]
behind_set_up (gpio (delay n) ∷ cs) ds l a h s = (h, behind_set_up cs ds l a.1 h s)
behind_set_up (i2c c ∷ cs) ds l a h s = behind_set_up cs ds l a.1 h s
behind_set_up (nvs c ∷ cs) ds l a h s = behind_set_up cs ds l a.1 h s
behind_set_up (netif_init ∷ cs) ds l a h s = behind_set_up cs ds l a.1 h s
behind_set_up (event_loop_create ∷ cs) ds l a h s = behind_set_up cs ds l a.1 h s

abbrev pub AreSetUp : Performed AppCall → Type 0
AreSetUp p = All IsSetUp p.made

and_then-AreSetUp : (p q : Performed AppCall) → AreSetUp p → AreSetUp q → AreSetUp (and_then p q)
and_then-AreSetUp p q h k =
    if_both AreSetUp p.goes_on (λ _. All-append IsSetUp p.made q.made h k) (λ _. h)

nvs-IsSetUp : (cs : List NvsCall) → All IsSetUp (map nvs cs)
nvs-IsSetUp [] = tt
nvs-IsSetUp (c ∷ cs) = (tt, nvs-IsSetUp cs)

nvs_part-AreSetUp : (p : Performed NvsCall) → AreSetUp (nvs_part p)
nvs_part-AreSetUp p = nvs-IsSetUp p.made

pub start_up-AreSetUp :
    (succeeds net_succeeds : ℕ → Bool) (storage : Nvs)
    → AreSetUp (start_up succeeds net_succeeds storage)
unfolding start_up config_steps net_steps config_water_flow_channel config_fan config_i2c_channel
start_up-AreSetUp succeeds net_succeeds storage =
    let net = perform net_succeeds 0 net_steps in
    and_then-AreSetUp (perform succeeds 0 config_steps)
      (and_then (nvs_part (app_main_nvs storage)) net)
      (perform-All IsSetUp succeeds 0 config_steps
        (tt, (tt, (tt, (tt, (tt, (tt, (tt, (tt, (tt, (tt, tt)))))))))))
      (and_then-AreSetUp (nvs_part (app_main_nvs storage)) net
        (nvs_part-AreSetUp (app_main_nvs storage))
        (perform-All IsSetUp net_succeeds 0 net_steps (tt, (tt, tt))))
