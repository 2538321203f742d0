-- ===== src/Bt/State.antt =====
-- The globals of bt_main.c that its handlers read and change.
use hydroponic_closet.Prelude.{ℕ, ◌+◌, ◌*◌, List, [], ◌∷◌, ◌++◌}

-- What the radio controller delivers: the bytes at a pointer. The handlers index it without a
-- test against `len`, so it is a function over all offsets.
abbrev pub Packet : Type 0
Packet = ℕ → ℕ

pub record Session : Type 0 where
  pub obex_cid : ℕ  -- uint8_t
  pub connected : ℕ  -- uint8_t
  pub src_cid : ℕ  -- uint16_t
  pub dest_cid : ℕ  -- uint16_t
  pub mtu : ℕ  -- uint16_t
  pub obex_conn_id : ℕ  -- uint16_t
  pub file_len : ℕ  -- uint32_t
  pub buffer_1 : List ℕ  -- the caller's array for the file name
  pub buffer_2 : List ℕ  -- the caller's array for the file contents
  pub queued : List (List ℕ)  -- the packets handed to queue_packet, the oldest first

-- The globals at start-up. `set_dir` gives the two arrays.
unfoldable pub set_dir : List ℕ → List ℕ → Session
set_dir buffer_1 buffer_2 = record {
  obex_cid = 0;
  connected = 0;
  src_cid = 0;
  dest_cid = 0x41;
  mtu = 0;
  obex_conn_id = 1;
  file_len = 4294967295;
  buffer_1 = buffer_1;
  buffer_2 = buffer_2;
  queued = [];
}

-- The packet in the log of what is queued. The code waits here until the FreeRTOS queue has taken a
-- copy; this wait is modelled in Bt.Transport.
unfoldable pub queue_packet : List ℕ → Session → Session
queue_packet p s = record s { queued = s.queued ++ p ∷ [] }

-- A handler returns, up to the waits of `queue_packet`, with the new globals, writes past the end of
-- an array, or never returns.
pub data Outcome : Type 0 where
  done : Session → Outcome
  overrun hang : Outcome

-- 256U * packet[hi] + packet[lo]
abbrev pub word : Packet → ℕ → ℕ → ℕ
word packet hi lo = 256 * packet hi + packet lo
