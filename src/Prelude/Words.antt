-- ===== src/Prelude/Words.antt =====
-- Casts to the fixed widths of C.
use Prim.Native.Nat.{ℕ, ◌%◌}

abbrev pub u32 : ℕ → ℕ
u32 x = x % 4294967296

abbrev pub u16 : ℕ → ℕ
u16 x = x % 65536

abbrev pub u8 : ℕ → ℕ
u8 x = x % 256
