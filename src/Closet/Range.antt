-- ===== src/Closet/Range.antt =====
-- What the sensor functions can report, and what the fan makes of it.
use mathlib.Core.Bool.{xor}
use hydroponic_closet.Prelude.{
  ℕ, ◌+◌, ◌*◌, ◌%◌, ◌^◌, ◌-◌, ◌≤◌, ◌<◌, ◌≡◌, refl, Bool, true, false, not, ◌&&◌, ◌||◌, List, [],
  ◌∷◌, arith, bit_and, bit_or, u32, if◌then◌else◌, All,
}
use hydroponic_closet.Prelude.Bits.{bit_and_mask, bit_or_high_low}
use hydroponic_closet.Prelude.Int.{ℤ, pos, negsuc, sub_ℕ, ◌≤ℤ◌}
use hydroponic_closet.Closet.Fan.{is_hot, change_fan_state}
use hydroponic_closet.Closet.Sensors.{
  shift_bytes_in, receive_i2c_channel, read_humidity, read_temperature,
}

-- The number that bytes stand for, the first the highest.
abbrev pub big_endian : ℕ → List ℕ → ℕ
big_endian n [] = n
big_endian n (b ∷ bs) = big_endian (n * 256 + b) bs

big_endian-ge : (n : ℕ) (bs : List ℕ) → n ≤ big_endian n bs
big_endian-ge n [] = omega arith
big_endian-ge n (b ∷ bs) = omega (arith, big_endian-ge (n * 256 + b) bs)

-- Bytes are shifted in as the big-endian number that they make with the start value, if it is
-- below 2 ^ 32.
pub shift_bytes_in-big_endian :
    (n : ℕ) (bs : List ℕ)
    → All (λ b. b < 256) bs
    → big_endian n bs < 2 ^ 32
    → shift_bytes_in n bs ≡ big_endian n bs
unfolding shift_bytes_in
shift_bytes_in-big_endian n [] h fits = refl
shift_bytes_in-big_endian n (b ∷ bs) h fits =
    rw next (shift_bytes_in-big_endian (n * 256 + b) bs h.1 fits)
  where
    next : u32 (bit_or (n * 256) b) ≡ n * 256 + b
    next = omega (arith, bit_or_high_low 8 n b h.0, big_endian-ge (n * 256 + b) bs)

-- The word of two bytes, with the low `k` bits left.
two_bytes :
    (k b0 b1 : ℕ)
    → b0 < 256
    → b1 < 256
    → bit_and (receive_i2c_channel b0 (b1 ∷ [])) (2 ^ k - 1) ≡ (b0 * 256 + b1) % 2 ^ k
unfolding receive_i2c_channel
two_bytes k b0 b1 p q =
    rw (shift_bytes_in-big_endian b0 (b1 ∷ []) (q, tt) (omega arith))
      (bit_and_mask k (b0 * 256 + b1))

module _ (b0 b1 : ℕ) (byte0 : b0 < 256) (byte1 : b1 < 256) where
  -- Whatever two bytes the sensor sends, the humidity that is read is the formula applied to the
  -- low twelve bits of the big-endian word.
  pub read_humidity_lem : read_humidity b0 b1 ≡ sub_ℕ (125 * ((b0 * 256 + b1) % 4096)) 393216
  unfolding read_humidity
  read_humidity_lem = rw (two_bytes 12 b0 b1 byte0 byte1)

  -- Whatever two bytes the sensor sends, the humidity that is read lies from -6 % to below 1.82 %
  -- (118659 / 65536).
  pub read_humidity_bounds :
      (negsuc 393215 ≤ℤ read_humidity b0 b1) × (read_humidity b0 b1 ≤ℤ pos 118659)
  read_humidity_bounds = rw read_humidity_lem (ground arith)

  read_temperature_lem :
      read_temperature b0 b1 ≡ sub_ℕ (17572 * ((b0 * 256 + b1) % 16384)) 307036160
  unfolding read_temperature
  read_temperature_lem = rw (two_bytes 14 b0 b1 byte0 byte1)

  -- Whatever two bytes the sensor sends, the temperature that is read lies from -46.85 °C to below
  -- -2.92 °C (-19154084 / 6553600).
  pub read_temperature_bounds :
      (negsuc 307036159 ≤ℤ read_temperature b0 b1) × (read_temperature b0 b1 ≤ℤ negsuc 19154083)
  read_temperature_bounds = rw read_temperature_lem (ground arith)

toggle :
    (hot fan : Bool)
    → ◌≡◌ {A = Bool × ℕ}
        (if hot && not fan || not hot && fan then (not fan, 1) else (fan, 0))
        (hot, if xor hot fan then 1 else 0)
unfolding xor
toggle true true = refl
toggle true false = refl
toggle false true = refl
toggle false false = refl

-- The fan ends in the state that the temperature asks for, and the result is 1 exactly for a
-- change.
pub change_fan_state_lem :
    (fan_state : Bool) (temperature : ℤ)
    → change_fan_state fan_state temperature
      ≡ (is_hot temperature, if xor (is_hot temperature) fan_state then 1 else 0)
unfolding change_fan_state
change_fan_state_lem fan_state temperature = toggle (is_hot temperature) fan_state

-- Whatever state the fan is in and whatever two bytes the temperature sensor sends, the fan is off
-- after `change_fan_state` on that reading.
pub fan_never_on :
    (fan_state : Bool) (b0 b1 : ℕ)
    → b0 < 256
    → b1 < 256
    → (change_fan_state fan_state (read_temperature b0 b1)).0 ≡ false
unfolding change_fan_state
fan_never_on fan_state b0 b1 p q = ground (arith, read_temperature_bounds b0 b1 p q)
