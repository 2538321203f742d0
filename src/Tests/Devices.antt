-- ===== src/Tests/Devices.antt =====
-- The theorems on the queue and on the closet's devices at concrete inputs.
use hydroponic_closet.Prelude.{
  ℕ, ◌+◌, ◌*◌, ◌≡◌, inl, refl, true, false, List, [], ◌∷◌, some, replicate, arith,
}
use hydroponic_closet.Prelude.Int.{pos, negsuc, ◌≤ℤ◌}
use hydroponic_closet.Bt.Transport.{
  send_buffer_size, payload, Action, host_attempt, advert_attempt, send_round, run,
}
use hydroponic_closet.Bt.Transport.Fifo.{IsFifo, run-IsFifo}
use hydroponic_closet.Bt.Transport.Delivery.{alternate, all_delivered}
use hydroponic_closet.Closet.Water.{disable_water_flow, enable_water_flow}
use hydroponic_closet.Closet.Routines.{Closet, initial, comprobar_rutinas, rounds}
use hydroponic_closet.Closet.Cycle.{IsConsistent, rounds-initial-IsConsistent}
use hydroponic_closet.Closet.Cycle.Pump.{pump_keeps_running, pump_stops, pump_starts}
use hydroponic_closet.Closet.Fan.{change_fan_state}
use hydroponic_closet.Closet.Sensors.{read_humidity, read_temperature}
use hydroponic_closet.Closet.Range.{read_humidity_bounds, read_temperature_bounds, fan_never_on}
use hydroponic_closet.Closet.Station.{
  sta_start, sta_disconnected, sta_got_ip, Station, connect, handle_all, wait_for_bits,
  wifi_sta_event_handler,
}
use hydroponic_closet.Closet.Retry.{idle, IsBounded, handle_all-IsBounded}
use hydroponic_closet.Tests.ListQueue.{list_queue, link}

abbrev schedule : List Action
schedule =
    host_attempt
    ∷ advert_attempt
    ∷ send_round false
    ∷ send_round true
    ∷ host_attempt
    ∷ send_round true
    ∷ []

run-IsFifo_example : IsFifo list_queue (run list_queue schedule link)
run-IsFifo_example = run-IsFifo list_queue schedule link (record { in_order = refl })

all_delivered_example :
    (run list_queue
      (replicate send_buffer_size (send_round true))
      (run list_queue (alternate link.host) link)).delivered
    ≡ (7 ∷ 8 ∷ []) ∷ (9 ∷ []) ∷ []
unfolding payload
all_delivered_example = all_delivered list_queue link (omega arith)

-- A clock that gains 20 seconds between two readings, and a slow one.
abbrev quick : ℕ → ℕ
quick k = k * 20

abbrev slow : ℕ → ℕ
slow k = 110 + k

rounds-initial-IsConsistent_example : IsConsistent (rounds quick 10 12 (initial quick 10))
rounds-initial-IsConsistent_example = rounds-initial-IsConsistent quick 10 12

abbrev resting : Closet
resting = record {
  flag_leds = true;
  flag_bomba = false;
  time_ant = 40;
  time_bomba = 0;
  flag_modem = false;
  time_off_modem = 100;
  time_on_modem = 0;
  reads = 1;
  water = [];
  radio = [];
}

abbrev running : Closet
running = record resting { flag_bomba = true; time_bomba = 100 }

pump_keeps_running_example : comprobar_rutinas slow 10 running ≡ record running { reads = 2 }
pump_keeps_running_example = pump_keeps_running slow 10 running refl (omega arith)

abbrev tired : Closet
tired = record running { time_bomba = 70 }

pump_stops_example :
    ((comprobar_rutinas slow 10 tired).flag_bomba ≡ false)
    × ((comprobar_rutinas slow 10 tired).water ≡ disable_water_flow 10)
    × ((comprobar_rutinas slow 10 tired).time_ant ≡ 112)
    × ((comprobar_rutinas slow 10 tired).flag_leds ≡ true)
pump_stops_example = pump_stops slow 10 tired refl (omega arith) (omega arith)

pump_starts_example :
    ((comprobar_rutinas slow 10 resting).flag_bomba ≡ true)
    × ((comprobar_rutinas slow 10 resting).water ≡ enable_water_flow 10)
    × ((comprobar_rutinas slow 10 resting).flag_leds ≡ false)
pump_starts_example = pump_starts slow 10 resting refl

read_humidity_bounds_example :
    (negsuc 393215 ≤ℤ read_humidity 0x6f 0xff) × (read_humidity 0x6f 0xff ≤ℤ pos 118659)
read_humidity_bounds_example = read_humidity_bounds 0x6f 0xff (omega arith) (omega arith)

read_temperature_bounds_example :
    (negsuc 307036159 ≤ℤ read_temperature 0x6f 0xff)
    × (read_temperature 0x6f 0xff ≤ℤ negsuc 19154083)
read_temperature_bounds_example = read_temperature_bounds 0x6f 0xff (omega arith) (omega arith)

fan_never_on_example : (change_fan_state true (read_temperature 0x6f 0xff)).0 ≡ false
fan_never_on_example = fan_never_on true 0x6f 0xff (omega arith) (omega arith)

handle_all-IsBounded_example :
    IsBounded (handle_all idle (sta_start ∷ replicate 5 sta_disconnected))
handle_all-IsBounded_example =
    handle_all-IsBounded (sta_start ∷ replicate 5 sta_disconnected) idle
      (record { capped = omega arith; used_up = inl refl })

abbrev online : Station
online = record idle { connected_bit = true; wifi_ok = true }

abbrev pub linked : Station
linked = record idle { connected_bit = true; wifi_ok = true; requests = connect ∷ [] }

linked_result : wait_for_bits (handle_all idle (sta_start ∷ sta_got_ip ∷ [])) ≡ some linked
unfolding wait_for_bits handle_all wifi_sta_event_handler
linked_result = refl
