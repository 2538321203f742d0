-- ===== src/Tests/Packets.antt =====
-- Packets as a peer sends them, and the globals after start-up.
use hydroponic_closet.Prelude.{
  ℕ, List, [], ◌∷◌, get_or, ◌++◌, ◌<◌, zero, suc, All, arith, replicate,
}
use hydroponic_closet.Bt.State.{Packet, Session, set_dir}

-- The bytes of a packet, zeros behind them.
abbrev pub packet_of : List ℕ → Packet
packet_of bs i = get_or bs i 0

-- An ACL packet on the channel `cid`, its L2CAP payload given.
abbrev pub acl_bytes : ℕ → List ℕ → List ℕ
acl_bytes cid payload = 0x02 ∷ 0x80 ∷ 0x20 ∷ 40 ∷ 0 ∷ 36 ∷ 0 ∷ cid ∷ 0 ∷ payload

-- A request for a connection to OBEX from the peer's channel 0x0050.
abbrev pub connect_request : Packet
connect_request = packet_of (acl_bytes 1 (0x02 ∷ 7 ∷ 4 ∷ 0 ∷ 0x09 ∷ 0x10 ∷ 0x50 ∷ 0 ∷ []))

-- A PUT with the name "ok" (a header of 9 bytes), the body "hi" and the end of the body.
abbrev pub put_bytes : List ℕ
put_bytes = acl_bytes 0x41 (
    0x00 ∷ 0x00 ∷ 0x82 ∷ 0 ∷ 20 ∷ 0x01 ∷ 0 ∷ 7 ∷ 0 ∷ b'o' ∷ 0 ∷ b'k' ∷ 0x48 ∷ 0 ∷ 5 ∷ b'h' ∷ b'i'
    ∷ 0x49 ∷ 0 ∷ 3 ∷ 0 ∷ 0 ∷ [])

abbrev pub put_request : Packet
put_request = packet_of put_bytes

abbrev pub fresh : Session
fresh = set_dir (replicate 8 0) (replicate 8 0)

-- A request that offers an MTU of 672.
abbrev pub conf_request : Packet
conf_request =
    packet_of (acl_bytes 1 (0x04 ∷ 8 ∷ 8 ∷ 0 ∷ 0x41 ∷ 0 ∷ 0 ∷ 0 ∷ 0x01 ∷ 0x02 ∷ 0xa0 ∷ 0x02 ∷ []))

-- A size header at offset 14: 0x1234 bytes.
abbrev pub size_bytes : List ℕ
size_bytes = replicate 14 0 ++ 0xc3 ∷ 0 ∷ 0 ∷ 0x12 ∷ 0x34 ∷ []

pub packet_of-lt : (bs : List ℕ) → All (λ b. b < 256) bs → (j : ℕ) → packet_of bs j < 256
packet_of-lt [] h j = omega arith
packet_of-lt (b ∷ bs) h zero = h.0
packet_of-lt (b ∷ bs) h (suc j) = packet_of-lt bs h.1 j
