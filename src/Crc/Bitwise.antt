-- ===== src/Crc/Bitwise.antt =====
-- The shift register with polynomial 0x8005, reflected, that the table-driven code computes.
use hydroponic_closet.Prelude.{
  ℕ, zero, suc, ◌+◌, ◌*◌, ◌/◌, ◌%◌, ◌^◌, ◌<◌, ◌≡◌, refl, ◌∙◌, sym, true, List, [], ◌∷◌, arith,
  bit_and, bit_xor, get_or, ◌==◌, ==_iff, if◌then◌else◌, holds_below, at_each, All,
}
use hydroponic_closet.Prelude.Bits.{
  bit_xor-div, bit_xor-mod, bit_xor-zero, bit_xor_self, bit_xor_swap, bit_xor_comm, bit_xor_assoc,
  bit_xor-div_pow, bit_xor_high_low, bit_and_mask, double_pow,
}
use hydroponic_closet.Crc.{crc16_byte, crc16}
use hydroponic_closet.Crc.Table.{crc16_table}

-- One shift of the register: the digit that falls out decides on the polynomial.
unfoldable pub shift_out : ℕ → ℕ
shift_out c = if c % 2 == 1 then bit_xor (c / 2) 0xa001 else c / 2

abbrev pub shifts : ℕ → ℕ → ℕ
shifts zero c = c
shifts (suc n) c = shifts n (shift_out c)

-- A byte enters the register and is shifted out, digit by digit.
unfoldable pub crc_byte_bitwise : ℕ → ℕ → ℕ
unfolding shift_out
crc_byte_bitwise crc byte = shifts 8 (bit_xor crc byte)

unfoldable pub crc_bitwise : ℕ → List ℕ → ℕ
crc_bitwise crc [] = crc
crc_bitwise crc (b ∷ bs) = crc_bitwise (crc_byte_bitwise crc b) bs

-- The register is linear.
shift_out-bit_xor : (a b : ℕ) → shift_out (bit_xor a b) ≡ bit_xor (shift_out a) (shift_out b)
unfolding shift_out
shift_out-bit_xor a b = ground (
  arith,
  bit_xor-div a b,
  bit_xor-mod a b,
  bit_xor_swap (a / 2) 0xa001 (b / 2) 0xa001,
  bit_xor_self 0xa001,
  bit_xor-zero (bit_xor (a / 2) (b / 2)),
  bit_xor_assoc (a / 2) 0xa001 (b / 2),
  bit_xor_assoc (a / 2) (b / 2) 0xa001,
  bit_xor_comm 0xa001 (b / 2),
)

pub shifts-bit_xor : (n a b : ℕ) → shifts n (bit_xor a b) ≡ bit_xor (shifts n a) (shifts n b)
shifts-bit_xor zero a b = refl
shifts-bit_xor (suc n) a b =
    rw (shift_out-bit_xor a b) (shifts-bit_xor n (shift_out a) (shift_out b))

-- Zeros fall out unchanged.
shift_out-double : (q : ℕ) → shift_out (q * 2) ≡ q
unfolding shift_out
shift_out-double q = ground arith

pub shifts-high : (n q : ℕ) → shifts n (q * 2 ^ n) ≡ q
shifts-high zero q = omega arith
shifts-high (suc n) q = rw (double_pow q n, shift_out-double (q * 2 ^ n)) (shifts-high n q)

-- The table holds the register's answer for each byte.
crc16_table_lem : holds_below (λ i. get_or crc16_table i 0 == shifts 8 i) 256 ≡ true
unfolding holds_below crc16_table shift_out
crc16_table_lem = refl

get_or-crc16_table : (i : ℕ) → i < 256 → get_or crc16_table i 0 ≡ shifts 8 i
get_or-crc16_table i h = (==_iff _ _).0 (at_each _ i 256 h crc16_table_lem)

shifts_split : (v : ℕ) → shifts 8 v ≡ bit_xor (v / 256) (get_or crc16_table (v % 256) 0)
shifts_split v = cc (
  bit_xor_high_low 8 (v / 256) (v % 256) (omega arith),
  shifts-bit_xor 8 (v / 256 * 2 ^ 8) (v % 256),
  shifts-high 8 (v / 256),
  get_or-crc16_table (v % 256) (omega arith),
  whole,
)
  where
    whole : v / 256 * 2 ^ 8 + v % 256 ≡ v
    whole = omega arith

-- A step of the table-driven code is eight shifts of the register, for every register value and
-- every byte.
pub crc16_byte-eq-bitwise :
    (crc byte : ℕ) → byte < 256 → crc16_byte crc byte ≡ crc_byte_bitwise crc byte
unfolding crc16_byte crc_byte_bitwise
crc16_byte-eq-bitwise crc byte h =
    let high : bit_xor crc byte / 256 ≡ crc / 256 =
      bit_xor-div_pow 8 crc byte ∙ top_only (crc / 256) (byte / 256) (omega arith) in
    let low : bit_and (bit_xor crc byte) 255 ≡ bit_xor crc byte % 256 =
      bit_and_mask 8 (bit_xor crc byte) in
    rw (low, ← high) (sym (shifts_split (bit_xor crc byte)))
  where
    top_only : (a b : ℕ) → b ≡ 0 → bit_xor a b ≡ a
    top_only a b e = rw e (bit_xor-zero a)

-- From any start value, the checksum by the table of any run of bytes, each below 256, is the one
-- that the bitwise shift register computes.
pub crc16-eq-bitwise :
    (crc : ℕ) (bs : List ℕ) → All (λ b. b < 256) bs → crc16 crc bs ≡ crc_bitwise crc bs
unfolding crc16 crc_bitwise
crc16-eq-bitwise crc [] h = refl
crc16-eq-bitwise crc (b ∷ bs) h =
    rw (crc16_byte-eq-bitwise crc b h.0) (crc16-eq-bitwise (crc_byte_bitwise crc b) bs h.1)
