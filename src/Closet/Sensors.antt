-- ===== src/Closet/Sensors.antt =====
-- src/main/include/Protocols/I2C_protocol.c, sensors/Humidity/humidity.c,
-- sensors/Temperature/temperature.c. A reading is the exact value of the source's formula as an
-- integer over a fixed denominator; the rounding of the C floats is left out.
use hydroponic_closet.Prelude.{ℕ, ◌*◌, ◌/◌, Bool, true, List, [], ◌∷◌, bit_and, bit_or, u32}
use hydroponic_closet.Esp.{Step, checked}
use hydroponic_closet.Prelude.Int.{ℤ, sub_ℕ}

-- for (i = 1; i < reading_number; i++) out = (out << 8) | buffer[i];
unfoldable pub shift_bytes_in : ℕ → List ℕ → ℕ
shift_bytes_in out [] = out
shift_bytes_in out (b ∷ bs) = shift_bytes_in (u32 (bit_or (out * 256) b)) bs

-- `buffer` holds the bytes that the bus delivered, the first apart. The int is its bit pattern.
unfoldable pub receive_i2c_channel : ℕ → List ℕ → ℕ
receive_i2c_channel b bs = shift_bytes_in b bs

-- Over 65536: -6 + 125 * (humidity / 65536).
unfoldable pub read_humidity : ℕ → ℕ → ℤ
read_humidity b0 b1 =
    let humidity = bit_and (receive_i2c_channel b0 (b1 ∷ [])) 0x0fff in
    sub_ℕ (125 * humidity) (6 * 65536)

-- Over 6553600: -46.85 + 175.72 * (temperature / 65536).
unfoldable pub read_temperature : ℕ → ℕ → ℤ
read_temperature b0 b1 =
    let temperature = bit_and (receive_i2c_channel b0 (b1 ∷ [])) 0x3fff in
    sub_ℕ (17572 * temperature) (4685 * 65536)

-- i2c_master_write_read_device(I2C_NUM_0, address, &command, 1, buffer, reading_number, timeout)
pub record I2cRead : Type 0 where
  pub address : ℕ
  pub command : ℕ
  pub reading_number : ℕ
  pub timeout : ℕ  -- in ticks

abbrev pub humidity_addrs : ℕ
humidity_addrs = 0xe5

abbrev pub reading_number_humidity : ℕ
reading_number_humidity = 2

abbrev pub temperature_addrs : ℕ
temperature_addrs = 0xe3

abbrev pub reading_number_temperature : ℕ
reading_number_temperature = 2

-- `bus` is what the bus delivers into the buffer, two bytes for both sensors.
module _ (bus : I2cRead → ℕ × ℕ) (tick : ℕ) where
  unfoldable pub i2c_request : ℕ → ℕ → I2cRead
  i2c_request address reading_number = record {
    address = address;
    command = 0x00;
    reading_number = reading_number;
    timeout = 5000 / tick;
  }

  unfoldable pub sense_humidity : ℤ
  sense_humidity =
      let (b0, b1) = bus (i2c_request humidity_addrs reading_number_humidity) in read_humidity b0 b1

  unfoldable pub sense_temperature : ℤ
  sense_temperature =
      let (b0, b1) = bus (i2c_request temperature_addrs reading_number_temperature) in
      read_temperature b0 b1

-- The calls of config_i2c_channel, both under ESP_ERROR_CHECK.
pub record I2cConfig : Type 0 where
  pub sda_io_num : ℕ
  pub scl_io_num : ℕ
  pub sda_pullup_en : Bool
  pub scl_pullup_en : Bool
  pub clk_speed : ℕ

pub data I2cCall : Type 0 where
  param_config : I2cConfig → I2cCall  -- i2c_param_config, as master
  driver_install : I2cCall  -- i2c_driver_install with no buffers, as master

abbrev pub i2c_master_freq_hz : ℕ
i2c_master_freq_hz = 400000

-- GPIO_NUM_21 and GPIO_NUM_22
abbrev pub i2c_config : I2cConfig
i2c_config = record {
  sda_io_num = 21;
  scl_io_num = 22;
  sda_pullup_en = true;
  scl_pullup_en = true;
  clk_speed = i2c_master_freq_hz;
}

unfoldable pub config_i2c_channel : List (Step I2cCall)
config_i2c_channel = checked (param_config i2c_config) ∷ checked driver_install ∷ []

-- The log: a tag and a value to two places.
pub data Shown : Type 0 where
  shown : List ℕ → ℤ → Shown

unfoldable pub show_i2c_info : List ℕ → ℤ → List Shown
show_i2c_info tag value = shown tag value ∷ []

-- "HUMIDITY"
unfoldable pub show_humidity_info : ℤ → List Shown
show_humidity_info humidity_value =
    show_i2c_info (b'H' ∷ b'U' ∷ b'M' ∷ b'I' ∷ b'D' ∷ b'I' ∷ b'T' ∷ b'Y' ∷ []) humidity_value

-- "TEMPERATURE"
unfoldable pub show_temperature_info : ℤ → List Shown
show_temperature_info temperature_value =
    show_i2c_info (b'T' ∷ b'E' ∷ b'M' ∷ b'P' ∷ b'E' ∷ b'R' ∷ b'A' ∷ b'T' ∷ b'U' ∷ b'R' ∷ b'E' ∷ [])
      temperature_value
