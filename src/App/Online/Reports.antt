-- ===== src/App/Online/Reports.antt =====
-- What an online closet (src/main/main.cpp) tells the telemetry server.
use hydroponic_closet.Prelude.{ℕ, ◌<◌, Bool, List, [], ◌∷◌, All, All-append, if_both}
use hydroponic_closet.Prelude.Int.{ℤ, pos, negsuc, ◌≤ℤ◌}
use hydroponic_closet.Closet.Sensors.{I2cRead, sense_temperature, sense_humidity, i2c_request}
use hydroponic_closet.Closet.Range.{read_humidity_bounds, read_temperature_bounds}
use hydroponic_closet.App.Online.{
  Telemetry, connect, send_telemetry_data, thingsboard_server, thingsboard_port, temperature_key,
  humidity_key, Online, online_round, online_loop,
}

-- A call of the telemetry client as it should be: a connection to the server, a temperature from
-- -46.85 °C to -2.92 °C or a humidity from -6 % to 1.82 %, each under its key.
pub data IsReport (token : List ℕ) : Telemetry → Type 0 where
  connection : IsReport token (connect thingsboard_server token thingsboard_port)
  temperature :
      (t : ℤ)
      → negsuc 307036159 ≤ℤ t
      → t ≤ℤ negsuc 19154083
      → IsReport token (send_telemetry_data temperature_key t)
  humidity :
      (h : ℤ)
      → negsuc 393215 ≤ℤ h
      → h ≤ℤ pos 118659
      → IsReport token (send_telemetry_data humidity_key h)

-- The bus delivers bytes.
abbrev pub DeliversBytes : (I2cRead → ℕ × ℕ) × Bool → Type 0
DeliversBytes (bus, connected) = (r : I2cRead) → ((bus r).0 < 256) × ((bus r).1 < 256)

module _ (token : List ℕ) (clock : ℕ → ℕ) (tick : ℕ) where
  online_round-IsReport :
      (bus : I2cRead → ℕ × ℕ) (connected : Bool) (o : Online)
      → DeliversBytes (bus, connected)
      → All (IsReport token) o.sent
      → All (IsReport token) (online_round token clock tick bus connected o).sent
  unfolding online_round sense_temperature sense_humidity
  online_round-IsReport bus connected o bytes before =
      let (t0, t1) = bytes (i2c_request bus tick 0xe3 2) in
      let (h0, h1) = bytes (i2c_request bus tick 0xe5 2) in
      let (tl, tu) = read_temperature_bounds _ _ t0 t1 in
      let (hl, hu) = read_humidity_bounds _ _ h0 h1 in
      All-append (IsReport token) _ _
        (All-append (IsReport token) o.sent _ before
          (if_both (All (IsReport token)) connected (λ _. tt) (λ _. (connection, tt))))
        (temperature _ tl tu, (humidity _ hl hu, tt))

  -- If the bus delivers bytes: however long the closet is online, each call of the telemetry
  -- client is a connection to the server, or the report of a temperature from -46.85 °C to below
  -- -2.92 °C or of a humidity from -6 % to below 1.82 % under the key for it, if those before
  -- were.
  pub online_loop-IsReport :
      (inputs : List ((I2cRead → ℕ × ℕ) × Bool)) (o : Online)
      → All DeliversBytes inputs
      → All (IsReport token) o.sent
      → All (IsReport token) (online_loop token clock tick inputs o).sent
  unfolding online_loop
  online_loop-IsReport [] o bytes before = before
  online_loop-IsReport ((bus, connected) ∷ rest) o bytes before =
      online_loop-IsReport rest (online_round token clock tick bus connected o) bytes.1
        (online_round-IsReport bus connected o bytes.0 before)
