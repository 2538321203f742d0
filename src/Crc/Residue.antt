-- ===== src/Crc/Residue.antt =====
-- What a receiver of a frame checks: the register after the sequence that is appended, low byte
-- first.
use hydroponic_closet.Prelude.{
  ℕ, ◌+◌, ◌*◌, ◌/◌, ◌%◌, ◌<◌, ◌≡◌, refl, ◌∙◌, true, List, [], ◌∷◌, ◌++◌, arith, bit_and, bit_xor,
  get_or, u8, ltb, holds_below, at_each,
}
use hydroponic_closet.Prelude.Bits.{
  bit_xor-div_pow, bit_xor_high_low, bit_and_mask, bit_xor-zero, bit_xor_self, bit_xor_assoc,
}
use hydroponic_closet.Crc.{crc16_byte, crc16}
use hydroponic_closet.Crc.Table.{crc16_table}

pub crc16-append : (c : ℕ) (xs ys : List ℕ) → crc16 c (xs ++ ys) ≡ crc16 (crc16 c xs) ys
unfolding crc16
crc16-append c [] ys = refl
crc16-append c (x ∷ xs) ys = crc16-append (crc16_byte c x) xs ys

-- An index whose low byte is zero looks up zero.
shift_byte : (c byte : ℕ) → bit_xor c byte % 256 ≡ 0 → crc16_byte c byte ≡ c / 256
unfolding crc16_byte crc16_table
shift_byte c byte h =
    let low : bit_and (bit_xor c byte) 255 ≡ 0 = bit_and_mask 8 (bit_xor c byte) ∙ h in
    rw low (bit_xor-zero (c / 256))

low_cancels : (c : ℕ) → bit_xor c (c % 256) ≡ c / 256 * 256
low_cancels c = cc (
  bit_xor_high_low 8 (c / 256) (c % 256) (omega arith),
  bit_xor_assoc (c / 256 * 256) (c % 256) (c % 256),
  bit_xor_self (c % 256),
  bit_xor-zero (c / 256 * 256),
  whole,
)
  where
    whole : c / 256 * 256 + c % 256 ≡ c
    whole = omega arith

own_bytes : (c : ℕ) → c < 65536 → crc16 c (u8 c ∷ u8 (c / 256) ∷ []) ≡ 0
unfolding crc16
own_bytes c h = rw (drops c, drops (c / 256)) (omega arith)
  where
    drops : (d : ℕ) → crc16_byte d (u8 d) ≡ d / 256
    drops d = shift_byte d (d % 256) (rw low_cancels (omega arith))

table_below : holds_below (λ i. ltb (get_or crc16_table i 0) 65536) 256 ≡ true
unfolding holds_below crc16_table
table_below = refl

pub bit_xor-lt : (a b : ℕ) → a < 65536 → b < 65536 → bit_xor a b < 65536
bit_xor-lt a b p q =
    let high : bit_xor a b / 65536 ≡ bit_xor (a / 65536) (b / 65536) = bit_xor-div_pow 16 a b in
    let a0 : a / 65536 ≡ 0 = omega arith in
    let b0 : b / 65536 ≡ 0 = omega arith in
    let none_left : bit_xor (a / 65536) (b / 65536) ≡ 0 = rw (a0, b0) refl in omega arith

pub crc16_byte-lt : (crc byte : ℕ) → crc < 65536 → crc16_byte crc byte < 65536
unfolding crc16_byte
crc16_byte-lt crc byte h =
    bit_xor-lt (crc / 256) (get_or crc16_table (bit_and (bit_xor crc byte) 255) 0) (omega arith)
      entry
  where
    index : bit_and (bit_xor crc byte) 255 ≡ bit_xor crc byte % 256
    index = bit_and_mask 8 (bit_xor crc byte)

    entry : get_or crc16_table (bit_and (bit_xor crc byte) 255) 0 < 65536
    entry = rw index (
        ground (
          arith,
          at_each (λ i. ltb (get_or crc16_table i 0) 65536) (bit_xor crc byte % 256) 256
              (omega arith) table_below,
        ))

-- The register stays a uint16_t.
pub crc16-lt : (crc : ℕ) (bs : List ℕ) → crc < 65536 → crc16 crc bs < 65536
unfolding crc16
crc16-lt crc [] h = h
crc16-lt crc (b ∷ bs) h = crc16-lt (crc16_byte crc b) bs (crc16_byte-lt crc b h)

-- A receiver that runs the checksum from 0 over any bytes followed by their own checksum, low
-- byte first, ends at 0.
pub crc16_residue : (bs : List ℕ) → crc16 0 (bs ++ u8 (crc16 0 bs) ∷ u8 (crc16 0 bs / 256) ∷ []) ≡ 0
crc16_residue bs =
    crc16-append 0 bs (u8 (crc16 0 bs) ∷ u8 (crc16 0 bs / 256) ∷ [])
    ∙ own_bytes (crc16 0 bs) (crc16-lt 0 bs (omega arith))
