-- ===== src/Bt/Receive/Size.antt =====
-- The file size of a PUT.
use hydroponic_closet.Prelude.{ℕ, ◌+◌, ◌*◌, ◌<◌, ◌≡◌, arith}
use hydroponic_closet.Bt.State.{Packet}
use hydroponic_closet.Bt.Put.{Put, put_size}

-- If the packet holds bytes, the size header stores its four bytes as one big-endian number,
-- whatever the size was before, and the loop goes on behind it.
pub put_size_lem :
    (packet : Packet) (p : Put)
    → ((j : ℕ) → packet j < 256)
    → ((put_size packet p).session.file_len
        ≡ ((packet (p.i + 1) * 256 + packet (p.i + 2)) * 256 + packet (p.i + 3)) * 256
          + packet (p.i + 4))
      × ((put_size packet p).i ≡ p.i + 5)
unfolding put_size
put_size_lem packet p bytes =
    (omega (arith, bytes (p.i + 1), bytes (p.i + 2), bytes (p.i + 3), bytes (p.i + 4)), omega arith)
