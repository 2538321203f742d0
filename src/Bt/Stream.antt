-- ===== src/Bt/Stream.antt =====
-- The macros of bt_main.h that write a packet through a moving pointer, and the command buffer
-- that they write to.
use hydroponic_closet.Prelude.{
  ℕ, zero, suc, get_or, ◌/◌, List, [], ◌∷◌, ◌++◌, Option, none, some, u8, length, drop, replicate,
  leb, if◌then◌else◌,
}

-- MAX_CMD_LEN
abbrev pub max_cmd_len : ℕ
max_cmd_len = 300

-- BD_ADDR_LEN
abbrev pub bd_addr_len : ℕ
bd_addr_len = 6

-- The bytes that a use of UINT8_TO_STREAM, UINT16_TO_STREAM, ARRAY_TO_STREAM and BDADDR_TO_STREAM
-- writes, the last from the end of the address on.
abbrev pub uint8_to_stream : ℕ → List ℕ
uint8_to_stream v = u8 v ∷ []

abbrev pub uint16_to_stream : ℕ → List ℕ
uint16_to_stream v = u8 v ∷ u8 (v / 256) ∷ []

abbrev pub array_to_stream : List ℕ → ℕ → List ℕ
array_to_stream a zero = []
array_to_stream [] (suc len) = []
array_to_stream (b ∷ a) (suc len) = u8 b ∷ array_to_stream a len

abbrev pub bytes_back : List ℕ → ℕ → List ℕ
bytes_back a zero = []
bytes_back a (suc n) = u8 (get_or a n 0) ∷ bytes_back a n

abbrev pub bdaddr_to_stream : List ℕ → List ℕ
bdaddr_to_stream a = bytes_back a bd_addr_len

-- `cmd_buf`, split where the pointer `buf` stands.
pub record Buffer : Type 0 where
  pub written : List ℕ
  pub cells : List ℕ

-- memset(cmd_buf, 0, sizeof(cmd_buf)), with `buf` at the start
unfoldable pub zeroed : Buffer
zeroed = record { written = []; cells = replicate 300 0 }

-- All of `cmd_buf`.
unfoldable pub contents : Buffer → List ℕ
contents b = b.written ++ b.cells

-- buf = cmd_buf
unfoldable pub rewind : Buffer → Buffer
unfolding contents
rewind b = record { written = []; cells = contents b }

-- Writes through `buf`; `none` is a write past the end of `cmd_buf`.
unfoldable pub write : List ℕ → Buffer → Option Buffer
write bs b =
    if leb (length bs) (length b.cells)
    then some (record { written = b.written ++ bs; cells = drop (length bs) b.cells })
    else none

-- The buffer after the writes of one packet into cells that are long enough.
unfoldable pub overlay : List ℕ → List ℕ → List ℕ
overlay bs cells = bs ++ drop (length bs) cells
