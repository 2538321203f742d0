-- ===== src/Crc.antt =====
-- The frame check sequence of the OBEX frames (src/main/include/blue/bt_main.c): `crc16_byte` and
-- `crc16`. `Bitwise` has the shift register that the table stands for.
pub mod Table
pub mod Bitwise
pub mod Residue
pub mod Detect
use hydroponic_closet.Prelude.{ℕ, ◌/◌, List, [], ◌∷◌, bit_and, bit_xor, get_or}
use Table.{crc16_table}

-- `crc` is a uint16_t and `byte` a uint8_t.
unfoldable pub crc16_byte : ℕ → ℕ → ℕ
crc16_byte crc byte = bit_xor (crc / 256) (get_or crc16_table (bit_and (bit_xor crc byte) 0xff) 0)

-- The loop over `len` bytes is the recursion over the list of those bytes.
unfoldable pub crc16 : ℕ → List ℕ → ℕ
crc16 crc [] = crc
crc16 crc (b ∷ bs) = crc16 (crc16_byte crc b) bs
