-- ===== src/Closet/Modem.antt =====
-- The part of `comprobar_rutinas` (src/main/main.cpp) that switches the modem.
use hydroponic_closet.Prelude.{
  ℕ, ◌+◌, ◌≤◌, ◌≡◌, ◌∙◌, ap, true, false, not, ltb, [], ◌∷◌, ◌++◌, arith, if◌then◌else◌,
}
use hydroponic_closet.Closet.Routines.{
  Closet, disable_wifi_wakeup, enable_wifi_wakeup, get_time, modem_off, modem_on, comprobar_rutinas,
}
use hydroponic_closet.Closet.Cycle.Pump.{resting, start_pump_early, comprobar_rutinas_resting}

module _ (clock : ℕ → ℕ) (tick : ℕ) where
  -- The modem's part of a round that finds the pump at rest and not yet due.
  modem_part :
      (c : Closet)
      → c.flag_bomba ≡ false
      → clock c.reads ≤ c.time_ant + 60
      → comprobar_rutinas clock tick c
        ≡ modem_on clock tick (modem_off clock tick (record c { reads = c.reads + 1 }))
  modem_part c off early =
      comprobar_rutinas_resting clock tick c c (resting clock tick c off) off
      ∙ ap (λ d. modem_on clock tick (modem_off clock tick d)) (start_pump_early clock tick c early)

  -- In a round in which the pump rests and is not due, a modem that is on is switched off exactly
  -- if it has been on for more than 15 seconds, provided that the clock's reading right after that
  -- is at most 60 seconds after the one by which it was noted.
  pub modem_stops :
      (c : Closet)
      → c.flag_bomba ≡ false
      → clock c.reads ≤ c.time_ant + 60
      → c.flag_modem ≡ true
      → clock (c.reads + 3) ≤ clock (c.reads + 2) + 60
      → let d = comprobar_rutinas clock tick c in
        let due = ltb (c.time_on_modem + 15) (clock (c.reads + 1)) in
        (d.flag_modem ≡ not due)
        × (d.radio ≡ (if due then c.radio ++ disable_wifi_wakeup ∷ [] else c.radio))
        × (d.water ≡ c.water)
  unfolding modem_off modem_on get_time
  modem_stops c off early on short = rw (modem_part c off early) (ground arith)

  -- In a round in which the pump rests and is not due, a modem that is off is switched on exactly
  -- if it has been off for more than 60 seconds.
  pub modem_starts :
      (c : Closet)
      → c.flag_bomba ≡ false
      → clock c.reads ≤ c.time_ant + 60
      → c.flag_modem ≡ false
      → let d = comprobar_rutinas clock tick c in
        let due = ltb (c.time_off_modem + 60) (clock (c.reads + 1)) in
        (d.flag_modem ≡ due)
        × (d.radio ≡ (if due then c.radio ++ enable_wifi_wakeup ∷ [] else c.radio))
        × (d.water ≡ c.water)
  unfolding modem_off modem_on get_time
  modem_starts c off early out = rw (modem_part c off early) (ground arith)
