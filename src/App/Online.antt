-- ===== src/App/Online.antt =====
-- The loop of an online closet in `app_main` (src/main/main.cpp): sensors, telemetry and the timed
-- routines. The telemetry library is a parameter, as far as it tells whether it is connected.
pub mod Reports
use hydroponic_closet.Prelude.{ℕ, ◌≡◌, refl, length, Bool, List, [], ◌∷◌, ◌++◌, if◌then◌else◌}
use hydroponic_closet.Prelude.Int.{ℤ}
use hydroponic_closet.Closet.Sensors.{I2cRead, sense_temperature, sense_humidity}
use hydroponic_closet.Closet.Routines.{Closet, comprobar_rutinas, rounds}

-- The calls of the ThingsBoard client. A temperature is an integer over 6553600, a humidity one
-- over 65536.
pub data Telemetry : Type 0 where
  connect : List ℕ → List ℕ → ℕ → Telemetry  -- the server, the token, the port
  send_telemetry_data : List ℕ → ℤ → Telemetry  -- the key, the value

-- THINGSBOARD_SERVER, "thingsboard.cloud"
abbrev pub thingsboard_server : List ℕ
thingsboard_server =
    b't' ∷ b'h' ∷ b'i' ∷ b'n' ∷ b'g' ∷ b's' ∷ b'b' ∷ b'o' ∷ b'a' ∷ b'r' ∷ b'd' ∷ b'.' ∷ b'c' ∷ b'l'
    ∷ b'o' ∷ b'u' ∷ b'd' ∷ []

abbrev pub thingsboard_port : ℕ
thingsboard_port = 1883

-- TEMPERATURE_KEY, and the key of the humidity
abbrev pub temperature_key : List ℕ
temperature_key = b't' ∷ b'e' ∷ b'm' ∷ b'p' ∷ b'e' ∷ b'r' ∷ b'a' ∷ b't' ∷ b'u' ∷ b'r' ∷ b'e' ∷ []

abbrev pub humidity_key : List ℕ
humidity_key = b'h' ∷ b'u' ∷ b'm' ∷ b'i' ∷ b'd' ∷ b'i' ∷ b't' ∷ b'y' ∷ []

pub record Online : Type 0 where
  pub temperatura : ℤ
  pub humedad : ℤ
  pub sent : List Telemetry  -- the oldest first
  pub closet : Closet

-- `token` is TOKEN1, `tick` portTICK_PERIOD_MS.
module _ (token : List ℕ) (clock : ℕ → ℕ) (tick : ℕ) where
  -- A round meets what the bus delivers, and whether the client is connected.
  unfoldable pub online_round : (I2cRead → ℕ × ℕ) → Bool → Online → Online
  online_round bus connected o =
      let t = sense_temperature bus tick in
      let h = sense_humidity bus tick in
      record o {
        temperatura = t;
        humedad = h;
        sent =
            o.sent
            ++ (if connected then [] else connect thingsboard_server token thingsboard_port ∷ [])
            ++ send_telemetry_data temperature_key t ∷ send_telemetry_data humidity_key h ∷ [];
        closet = comprobar_rutinas clock tick o.closet;
      }

  -- for(;;usleep(1000000))
  unfoldable pub online_loop : List ((I2cRead → ℕ × ℕ) × Bool) → Online → Online
  online_loop [] o = o
  online_loop ((bus, connected) ∷ rest) o = online_loop rest (online_round bus connected o)

  -- The closet's own state runs through the rounds of `comprobar_rutinas` alone.
  pub online_loop_closet :
      (inputs : List ((I2cRead → ℕ × ℕ) × Bool)) (o : Online)
      → (online_loop inputs o).closet ≡ rounds clock tick (length inputs) o.closet
  unfolding online_loop online_round rounds
  online_loop_closet [] o = refl
  online_loop_closet ((bus, connected) ∷ rest) o =
      online_loop_closet rest (online_round bus connected o)
