-- ===== src/Closet/Cycle/Pump.antt =====
-- What a round of `comprobar_rutinas` (src/main/main.cpp) does to the pump.
use native.Mathlib.Decide.{dec_lt}
use hydroponic_closet.Prelude.{
  ℕ, ◌+◌, ◌≤◌, ◌<◌, ◌≡◌, refl, true, false, not, ltb, ◌++◌, arith, if◌then◌else◌,
}
use hydroponic_closet.Closet.Water.{enable_water_flow, disable_water_flow}
use hydroponic_closet.Closet.Routines.{
  Closet, get_time, stop_pump, start_pump, modem_off, modem_on, comprobar_rutinas,
}
use hydroponic_closet.Closet.Cycle.{modem_keeps}

module _ (clock : ℕ → ℕ) (tick : ℕ) where
  -- While a running pump has not run for more than 30 seconds, a round reads the clock once and
  -- changes nothing else, the modem included.
  pub pump_keeps_running :
      (c : Closet)
      → c.flag_bomba ≡ true
      → clock c.reads ≤ c.time_bomba + 30
      → comprobar_rutinas clock tick c ≡ record c { reads = c.reads + 1 }
  unfolding comprobar_rutinas stop_pump get_time
  pump_keeps_running c on early = ground arith

  stop_pump_late :
      (c : Closet)
      → c.flag_bomba ≡ true
      → c.time_bomba + 30 < clock c.reads
      → stop_pump clock tick c ≡ record c {
        water = c.water ++ disable_water_flow tick;
        flag_bomba = false;
        time_ant = clock (c.reads + 1);
        reads = c.reads + 2;
      }
  unfolding stop_pump get_time
  stop_pump_late c on late = ground arith

  pub start_pump_early :
      (c : Closet)
      → clock c.reads ≤ c.time_ant + 60
      → start_pump clock tick c ≡ record c { reads = c.reads + 1 }
  unfolding start_pump get_time
  start_pump_early c early = ground arith

  start_pump_late :
      (c : Closet)
      → c.time_ant + 60 < clock c.reads
      → start_pump clock tick c ≡ record c {
        water = c.water ++ enable_water_flow tick;
        flag_bomba = true;
        time_bomba = clock (c.reads + 1);
        flag_leds = not c.flag_leds;
        reads = c.reads + 2;
      }
  unfolding start_pump get_time
  start_pump_late c late = ground arith

  pub resting : (c : Closet) → c.flag_bomba ≡ false → stop_pump clock tick c ≡ c
  unfolding stop_pump
  resting c off = rw (stop_pump, off)

  pub comprobar_rutinas_resting :
      (c d : Closet)
      → stop_pump clock tick c ≡ d
      → d.flag_bomba ≡ false
      → comprobar_rutinas clock tick c
        ≡ modem_on clock tick (modem_off clock tick (start_pump clock tick d))
  unfolding comprobar_rutinas
  comprobar_rutinas_resting c d e off = rw (comprobar_rutinas, e, off)

  -- What the last two parts of a round leave alone.
  Finishes : Closet → Closet → Type 0
  Finishes d e =
      (d.flag_bomba ≡ e.flag_bomba)
      × (d.water ≡ e.water)
      × (d.time_ant ≡ e.time_ant)
      × (d.flag_leds ≡ e.flag_leds)

  round_Finishes :
      (c d e : Closet)
      → stop_pump clock tick c ≡ d
      → d.flag_bomba ≡ false
      → start_pump clock tick d ≡ e
      → Finishes (comprobar_rutinas clock tick c) e
  unfolding Finishes
  round_Finishes c d e p off q =
      let keeps = modem_keeps clock tick e in
      rw (comprobar_rutinas_resting c d p off, q) (keeps.1, keeps.0, keeps.2, keeps.3)

  -- A round that finds a running pump on for more than 30 seconds makes, of the calls for the water
  -- circuit, those that stop it and no others, clears the flag, notes the time and leaves the lamps'
  -- flag, provided that the clock's next reading but one is at most 60 seconds after its next.
  pub pump_stops :
      (c : Closet)
      → c.flag_bomba ≡ true
      → c.time_bomba + 30 < clock c.reads
      → clock (c.reads + 2) ≤ clock (c.reads + 1) + 60
      → let d = comprobar_rutinas clock tick c in
        (d.flag_bomba ≡ false)
        × (d.water ≡ c.water ++ disable_water_flow tick)
        × (d.time_ant ≡ clock (c.reads + 1))
        × (d.flag_leds ≡ c.flag_leds)
  unfolding Finishes
  pump_stops c on late short =
      ground
        (arith, round_Finishes c _ _ (stop_pump_late c on late) refl (start_pump_early _ short))

  -- A resting pump is started exactly by a round that finds more than 60 seconds gone; the lamps'
  -- flag changes exactly then, and no other call for the water circuit is made.
  pub pump_starts :
      (c : Closet)
      → c.flag_bomba ≡ false
      → let d = comprobar_rutinas clock tick c in
        let due = ltb (c.time_ant + 60) (clock c.reads) in
        (d.flag_bomba ≡ due)
        × (d.water ≡ (if due then c.water ++ enable_water_flow tick else c.water))
        × (d.flag_leds ≡ (if due then not c.flag_leds else c.flag_leds))
  unfolding Finishes
  pump_starts c off = elim (dec_lt (c.time_ant + 60) (clock c.reads)) [
    | yes late ↦ ground (arith, round_Finishes c c _ (resting c off) off (start_pump_late c late))
    | no early ↦
        ground (arith, round_Finishes c c _ (resting c off) off (start_pump_early c (omega arith)))
  ]
