-- ===== src/Crc/Detect.antt =====
-- What the frame check sequence catches: errors in two neighbouring bytes.
use hydroponic_closet.Prelude.{
  ℕ, zero, suc, ◌+◌, ◌*◌, ◌/◌, ◌^◌, ◌<◌, ◌≡◌, ◌∙◌, sym, ap, List, [], ◌∷◌, ◌++◌, arith, bit_xor, u8,
  All,
}
use hydroponic_closet.Prelude.Bits.{
  bit_xor-zero, bit_xor_self, bit_xor_comm, bit_xor_assoc, bit_xor_high_low, zero-bit_xor,
}
use hydroponic_closet.Crc.{crc16_byte, crc16}
use hydroponic_closet.Crc.Bitwise.{
  shift_out, shifts, shifts-bit_xor, shifts-high, crc_byte_bitwise, crc_bitwise, crc16-eq-bitwise,
}
use hydroponic_closet.Crc.Residue.{bit_xor-lt, crc16_byte-lt, crc16_residue}

-- Two numbers without a difference are one.
bit_xor-eq_zero : (a b : ℕ) → bit_xor a b ≡ 0 → a ≡ b
bit_xor-eq_zero a b h = cc (bit_xor_assoc a b b, bit_xor_self b, bit_xor-zero a, zero-bit_xor b, h)

-- A register of 16 digits that shifts to zero was zero.
shift_out-kernel : (v : ℕ) → v < 65536 → shift_out v ≡ 0 → v ≡ 0
unfolding shift_out
shift_out-kernel v h e = ground (arith, bit_xor-eq_zero (v / 2) 0xa001)

shift_out-lt : (v : ℕ) → v < 65536 → shift_out v < 65536
unfolding shift_out
shift_out-lt v h = ground (arith, bit_xor-lt (v / 2) 0xa001 (omega arith) (omega arith))

shifts-kernel : (n v : ℕ) → v < 65536 → shifts n v ≡ 0 → v ≡ 0
shifts-kernel zero v h e = e
shifts-kernel (suc n) v h e =
    shift_out-kernel v h (shifts-kernel n (shift_out v) (shift_out-lt v h) e)

shifts-lt : (n v : ℕ) → v < 65536 → shifts n v < 65536
shifts-lt zero v h = h
shifts-lt (suc n) v h = shifts-lt n (shift_out v) (shift_out-lt v h)

shifts-injective : (n a b : ℕ) → a < 65536 → b < 65536 → shifts n a ≡ shifts n b → a ≡ b
shifts-injective n a b p q e = bit_xor-eq_zero a b (
    shifts-kernel n (bit_xor a b) (bit_xor-lt a b p q)
      (shifts-bit_xor n a b ∙ rw e (bit_xor_self (shifts n b))))

bit_xor_cancel : (a b k : ℕ) → bit_xor a k ≡ bit_xor b k → a ≡ b
bit_xor_cancel a b k h =
    cc (bit_xor_assoc a k k, bit_xor_assoc b k k, bit_xor_self k, bit_xor-zero a, bit_xor-zero b, h)

bit_xor_cancel_left : (k a b : ℕ) → bit_xor k a ≡ bit_xor k b → a ≡ b
bit_xor_cancel_left k a b h = bit_xor_cancel a b k (bit_xor_comm a k ∙ h ∙ bit_xor_comm k b)

-- Different registers stay different over the same bytes.
suffix_injective :
    (c d : ℕ) (bs : List ℕ)
    → c < 65536
    → d < 65536
    → All (λ b. b < 256) bs
    → crc_bitwise c bs ≡ crc_bitwise d bs
    → c ≡ d
unfolding crc_bitwise crc_byte_bitwise
suffix_injective c d [] p q h e = e
suffix_injective c d (b ∷ bs) p q h e =
    let v = bit_xor-lt c b p (omega arith) in
    let w = bit_xor-lt d b q (omega arith) in
    bit_xor_cancel c d b (
      shifts-injective 8 (bit_xor c b) (bit_xor d b) v w (
        suffix_injective (shifts 8 (bit_xor c b)) (shifts 8 (bit_xor d b)) bs (shifts-lt 8 _ v)
          (shifts-lt 8 _ w) h.1 e))

-- Two bytes enter the register as a word of 16 digits.
two_bytes :
    (c a b : ℕ)
    → a < 256
    → bit_xor (shifts 8 (bit_xor c a)) b ≡ bit_xor (shifts 8 c) (shifts 8 (b * 256 + a))
two_bytes c a b h = cc (
  shifts-bit_xor 8 c a,
  bit_xor_assoc (shifts 8 c) (shifts 8 a) b,
  shifts-high 8 b,
  shifts-bit_xor 8 (b * 2 ^ 8) a,
  bit_xor_high_low 8 b a h,
  bit_xor_comm (shifts 8 a) b,
)

two_bytes_injective :
    (c a b a' b' : ℕ)
    → c < 65536
    → a < 256
    → b < 256
    → a' < 256
    → b' < 256
    → shifts 8 (bit_xor (shifts 8 (bit_xor c a)) b)
      ≡ shifts 8 (bit_xor (shifts 8 (bit_xor c a')) b')
    → (a ≡ a') × (b ≡ b')
two_bytes_injective c a b a' b' hc ha hb ha' hb' e =
    let register : (x y : ℕ) → x < 256 → y < 256 → bit_xor (shifts 8 (bit_xor c x)) y < 65536 =
      λ x y p q. bit_xor-lt _ y (shifts-lt 8 _ (bit_xor-lt c x hc (omega arith))) (omega arith) in
    let before = shifts-injective 8 _ _ (register a b ha hb) (register a' b' ha' hb') e in
    let words : shifts 8 (b * 256 + a) ≡ shifts 8 (b' * 256 + a') =
      bit_xor_cancel_left (shifts 8 c) _ _
        (sym (two_bytes c a b ha) ∙ before ∙ two_bytes c a' b' ha') in
    let same : b * 256 + a ≡ b' * 256 + a' =
      shifts-injective 8 _ _ (omega arith) (omega arith) words in
    (omega arith, omega arith)

abbrev AreBytes : List ℕ → Type 0
AreBytes = All (λ b. b < 256)

-- Over bytes, from the same register, where two neighbours may differ.
module _ (c : ℕ) (q : List ℕ) (q_bytes : AreBytes q) where
  tail_detects :
      (a b a' b' : ℕ)
      → c < 65536
      → AreBytes (a ∷ b ∷ [])
      → AreBytes (a' ∷ b' ∷ [])
      → crc_bitwise c (a ∷ b ∷ q) ≡ crc_bitwise c (a' ∷ b' ∷ q)
      → (a ≡ a') × (b ≡ b')
  unfolding crc_bitwise crc_byte_bitwise
  tail_detects a b a' b' h (ha, (hb, z)) (ha', (hb', z')) e =
      let register : (x y : ℕ)
          → x < 256
          → y < 256
          → shifts 8 (bit_xor (shifts 8 (bit_xor c x)) y) < 65536 =
        λ x y p q.
          shifts-lt 8 _
            (bit_xor-lt _ y (shifts-lt 8 _ (bit_xor-lt c x h (omega arith))) (omega arith)) in
      two_bytes_injective c a b a' b' h ha hb ha' hb'
        (suffix_injective _ _ q (register a b ha hb) (register a' b' ha' hb') q_bytes e)

-- If two runs of bytes differ at most in two neighbouring bytes, and the checksums from the same
-- start value are equal, the runs are the same.
pub crc16-detects :
    (c : ℕ) (p q : List ℕ) (a b a' b' : ℕ)
    → c < 65536
    → All (λ x. x < 256) (p ++ a ∷ b ∷ q)
    → All (λ x. x < 256) (p ++ a' ∷ b' ∷ q)
    → crc16 c (p ++ a ∷ b ∷ q) ≡ crc16 c (p ++ a' ∷ b' ∷ q)
    → (a ≡ a') × (b ≡ b')
unfolding crc16
crc16-detects c [] q a b a' b' h v w e =
    tail_detects c q v.1.1 a b a' b' h (v.0, (v.1.0, tt)) (w.0, (w.1.0, tt))
      (sym (crc16-eq-bitwise c (a ∷ b ∷ q) v) ∙ e ∙ crc16-eq-bitwise c (a' ∷ b' ∷ q) w)
crc16-detects c (x ∷ p) q a b a' b' h v w e =
    crc16-detects (crc16_byte c x) p q a b a' b' (crc16_byte-lt c x h) v.1 w.1 e

-- What is sent of a frame: its bytes and their checksum, low byte first.
abbrev pub with_fcs : List ℕ → List ℕ
with_fcs bs = bs ++ u8 (crc16 0 bs) ∷ u8 (crc16 0 bs / 256) ∷ []

-- A frame goes out with its checksum and comes in with at most two neighbouring bytes changed,
-- in the frame or in the checksum: if the receiver's checksum over all that came in is 0, nothing
-- was changed.
pub crc16-accepts :
    (bs p q : List ℕ) (a b a' b' : ℕ)
    → All (λ x. x < 256) (p ++ a ∷ b ∷ q)
    → All (λ x. x < 256) (p ++ a' ∷ b' ∷ q)
    → with_fcs bs ≡ p ++ a ∷ b ∷ q
    → crc16 0 (p ++ a' ∷ b' ∷ q) ≡ 0
    → p ++ a' ∷ b' ∷ q ≡ with_fcs bs
crc16-accepts bs p q a b a' b' v w sent accepted =
    let (e, f) =
      crc16-detects 0 p q a b a' b' (omega arith) v w
        (ap (crc16 0) (sym sent) ∙ crc16_residue bs ∙ sym accepted) in
    rw (← e, ← f) (sym sent)
