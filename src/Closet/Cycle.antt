-- ===== src/Closet/Cycle.antt =====
-- What `comprobar_rutinas` (src/main/main.cpp) keeps over time.
pub mod Pump
use native.Mathlib.Decide.{dec_lt}
use hydroponic_closet.Prelude.{
  ℕ, zero, suc, ◌+◌, ◌≤◌, ◌<◌, ◌≡◌, refl, true, false, not, ltb, List, ◌++◌, arith, if◌then◌else◌,
  if_both, inl, inr,
}
use hydroponic_closet.Closet.Gpio.{Call}
use hydroponic_closet.Closet.Water.{enable_water_flow, disable_water_flow}
use hydroponic_closet.Closet.Interlock.{
  Levels, after_all, AlwaysSafe, IsSafe, AlwaysSafe-append, after_all-append, enable-AlwaysSafe,
  disable-AlwaysSafe,
}
use hydroponic_closet.Closet.Routines.{
  Closet, get_time, initial, stop_pump, start_pump, modem_off, modem_on, comprobar_rutinas, rounds,
  elapsed,
}

-- All pins low, as they are after reset.
abbrev pub low : Levels
low = record { at_pump = 0; at_enable = 0; at_switch = 0 }

-- What holds between two rounds: the calls so far never ran the pump against a closed valve, and
-- the flag tells whether the pump runs.
pub record IsConsistent (c : Closet) : Type 0 where
  pub safe : AlwaysSafe c.water low
  pub level : (after_all c.water low).at_pump ≡ (if c.flag_bomba then 1 else 0)
  pub open_valve : IsSafe (after_all c.water low)

IsConsistent-more :
    (c d : Closet) (cs : List Call)
    → IsConsistent c
    → d.water ≡ c.water ++ cs
    → AlwaysSafe cs (after_all c.water low)
    → (after_all cs (after_all c.water low)).at_pump ≡ (if d.flag_bomba then 1 else 0)
    → IsSafe (after_all cs (after_all c.water low))
    → IsConsistent d
IsConsistent-more c d cs v w s l o = record {
  safe = rw w (AlwaysSafe-append c.water cs low v.safe s);
  level = rw (w, after_all-append c.water cs low) l;
  open_valve = rw (w, after_all-append c.water cs low) o;
}

IsConsistent-same :
    (c d : Closet)
    → IsConsistent c
    → d.water ≡ c.water
    → d.flag_bomba ≡ c.flag_bomba
    → IsConsistent d
IsConsistent-same c d v w f = record {
  safe = rw w v.safe;
  level = rw (w, f) v.level;
  open_valve = rw w v.open_valve;
}

module _ (clock : ℕ → ℕ) (tick : ℕ) where
  stop_pump-IsConsistent : (c : Closet) → IsConsistent c → IsConsistent (stop_pump clock tick c)
  unfolding stop_pump disable_water_flow
  stop_pump-IsConsistent c v =
      if_both IsConsistent c.flag_bomba
        (λ _.
          if_both IsConsistent (elapsed clock tick c c.time_bomba 30)
            (λ _.
              IsConsistent-more c _ (disable_water_flow tick) v refl
                (disable-AlwaysSafe tick (after_all c.water low) v.open_valve) refl (inl refl))
            (λ _. IsConsistent-same c _ v refl refl))
        (λ _. v)

  start_pump-IsConsistent : (c : Closet) → IsConsistent c → IsConsistent (start_pump clock tick c)
  unfolding start_pump enable_water_flow
  start_pump-IsConsistent c v =
      if_both IsConsistent (elapsed clock tick c c.time_ant 60)
        (λ _.
          IsConsistent-more c _ (enable_water_flow tick) v refl
            (enable-AlwaysSafe tick (after_all c.water low) v.open_valve) refl (inr (refl, refl)))
        (λ _. IsConsistent-same c _ v refl refl)

  pub modem_keeps :
      (c : Closet)
      → let d = modem_on clock tick (modem_off clock tick c) in
        (d.water ≡ c.water)
        × (d.flag_bomba ≡ c.flag_bomba)
        × (d.time_ant ≡ c.time_ant)
        × (d.flag_leds ≡ c.flag_leds)
  unfolding modem_on modem_off
  modem_keeps c = ground arith

  comprobar_rutinas-IsConsistent :
      (c : Closet) → IsConsistent c → IsConsistent (comprobar_rutinas clock tick c)
  unfolding comprobar_rutinas
  comprobar_rutinas-IsConsistent c v =
      let d = stop_pump clock tick c in
      let w = stop_pump-IsConsistent c v in
      let e = start_pump clock tick d in
      if_both IsConsistent d.flag_bomba (λ _. w)
        (λ _.
          IsConsistent-same e _ (start_pump-IsConsistent d w) (modem_keeps e).0 (modem_keeps e).1)

  rounds-IsConsistent : (n : ℕ) (c : Closet) → IsConsistent c → IsConsistent (rounds clock tick n c)
  unfolding rounds
  rounds-IsConsistent zero c v = v
  rounds-IsConsistent (suc n) c v =
      rounds-IsConsistent n (comprobar_rutinas clock tick c) (comprobar_rutinas-IsConsistent c v)

  -- After any number of rounds from start-up, whatever the clock says: after each driver call so
  -- far the pump was off or the valve open, and the pump's level is 1 exactly if `flag_bomba` is set.
  pub rounds-initial-IsConsistent :
      (n : ℕ) → IsConsistent (rounds clock tick n (initial clock tick))
  unfolding initial
  rounds-initial-IsConsistent n =
      rounds-IsConsistent n (initial clock tick)
        (record { safe = inl refl; level = refl; open_valve = inl refl })
