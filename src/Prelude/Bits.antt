-- ===== src/Prelude/Bits.antt =====
-- Laws of `^`, `|` and `&` at every width, from the digit recursion that the native operations mean.
use Prim.Native.Nat.{ℕ, zero, suc, ◌+◌, ◌*◌, ◌/◌, ◌%◌, ◌^◌, ◌-◌, ◌≤◌, ◌<◌}
use Prim.Native.Nat.{max, bit_or, bit_or-bitwise}
use Prim.Native.Nat.{min, digits, differ, bit_and, bit_xor, bit_and-bitwise, bit_xor-bitwise}
use mathlib.Core.Path.{◌≡◌, refl, ap, ◌∙◌}
use native.Mathlib.Nat.{pow-suc, one-le-pow, div-one, mul_comm, div-div-eq-div-mul}
use native.Mathlib.Decide.{dec_le}
use native.Mathlib.Omega.{arith}

-- The count of digits does not matter once it covers the first number.
module _ (z : ℕ → ℕ) (f : ℕ → ℕ → ℕ) where
  one_digit_more : (n a b : ℕ) → a ≤ n → digits z f (suc n) a b ≡ digits z f n a b
  one_digit_more zero zero b h = refl
  one_digit_more zero (suc a) b h = elim h [ ]
  one_digit_more (suc n) zero b h = refl
  one_digit_more (suc n) (suc a) b h =
      omega (arith, one_digit_more n (suc a / 2) (b / 2) (omega arith))

  count_covers : (n a b : ℕ) → a ≤ n → digits z f n a b ≡ digits z f a a b
  count_covers zero zero b h = refl
  count_covers zero (suc a) b h = elim h [ ]
  count_covers (suc n) a b h = elim (dec_le a n) [
    | yes below ↦ one_digit_more n a b below ∙ count_covers n a b below
    | no top ↦ (let e : suc n ≡ a = omega arith in ap (λ (k : ℕ). digits z f k a b) e)
  ]

  pub lowest_digit :
      (a b : ℕ)
      → digits z f (suc a) (suc a) b
        ≡ digits z f (suc a / 2) (suc a / 2) (b / 2) * 2 + f (suc a % 2) (b % 2)
  lowest_digit a b = omega (arith, count_covers a (suc a / 2) (b / 2) (omega arith))

  -- An operation that is this recursion, whatever its digits do, splits off its lowest digit.
  pub splits :
      (op : ℕ → ℕ → ℕ)
      → ((a b : ℕ) → op a b ≡ digits z f a a b)
      → ((b : ℕ) → z b ≡ z (b / 2) * 2 + f 0 (b % 2))
      → (x y : ℕ) → op x y ≡ op (x / 2) (y / 2) * 2 + f (x % 2) (y % 2)
  splits op law start zero y = omega (arith, law 0 y, law 0 (y / 2), start y)
  splits op law start (suc x) y =
      omega (arith, law (suc x) y, law (suc x / 2) (y / 2), lowest_digit x y)

pub bit_and_halves : (x y : ℕ) → bit_and x y ≡ bit_and (x / 2) (y / 2) * 2 + min (x % 2) (y % 2)
bit_and_halves = splits (λ b. zero) min bit_and bit_and-bitwise (λ b. omega arith)

pub bit_or_halves : (x y : ℕ) → bit_or x y ≡ bit_or (x / 2) (y / 2) * 2 + max (x % 2) (y % 2)
bit_or_halves = splits (λ b. b) max bit_or bit_or-bitwise (λ b. omega arith)

pub zero-bit_xor : (b : ℕ) → bit_xor 0 b ≡ b
zero-bit_xor b = bit_xor-bitwise 0 b

differ_sum : (x y : ℕ) → x < 2 → y < 2 → differ x y ≡ (x + y) % 2
differ_sum zero y p q = omega arith
differ_sum (suc zero) zero p q = refl
differ_sum (suc zero) (suc zero) p q = refl
differ_sum (suc zero) (suc (suc y)) p q = absurd (omega arith)
differ_sum (suc (suc x)) y p q = absurd (omega arith)

pub bit_xor_halves : (x y : ℕ) → bit_xor x y ≡ bit_xor (x / 2) (y / 2) * 2 + (x % 2 + y % 2) % 2
bit_xor_halves x y = omega (
  arith,
  splits (λ b. b) differ bit_xor bit_xor-bitwise (λ b. omega (arith, differ_sum 0 (b % 2))) x y,
  differ_sum (x % 2) (y % 2),
)

-- The two halves of an exclusive or.
pub bit_xor-div : (a b : ℕ) → bit_xor a b / 2 ≡ bit_xor (a / 2) (b / 2)
bit_xor-div a b = omega (arith, bit_xor_halves a b)

pub bit_xor-mod : (a b : ℕ) → bit_xor a b % 2 ≡ (a % 2 + b % 2) % 2
bit_xor-mod a b = omega (arith, bit_xor_halves a b)

-- Laws by induction on a bound `n` of the numbers.
comm_below : (n a b : ℕ) → a ≤ n → b ≤ n → bit_xor a b ≡ bit_xor b a
comm_below zero zero zero p q = refl
comm_below zero zero (suc b) p q = elim q [ ]
comm_below zero (suc a) b p q = elim p [ ]
comm_below (suc n) a b p q = omega (
  arith,
  bit_xor_halves a b,
  bit_xor_halves b a,
  comm_below n (a / 2) (b / 2) (omega arith) (omega arith),
)

pub bit_xor_comm : (a b : ℕ) → bit_xor a b ≡ bit_xor b a
bit_xor_comm a b = comm_below (a + b) a b (omega arith) (omega arith)

assoc_from_halves :
    (a b c : ℕ)
    → bit_xor (bit_xor (a / 2) (b / 2)) (c / 2) ≡ bit_xor (a / 2) (bit_xor (b / 2) (c / 2))
    → bit_xor (bit_xor a b) c ≡ bit_xor a (bit_xor b c)
assoc_from_halves a b c h = ground (
  arith,
  bit_xor_halves a b,
  bit_xor_halves b c,
  bit_xor_halves (bit_xor a b) c,
  bit_xor_halves a (bit_xor b c),
  bit_xor-div a b,
  bit_xor-div b c,
)

assoc_below : (n a b c : ℕ) → a ≤ n → bit_xor (bit_xor a b) c ≡ bit_xor a (bit_xor b c)
assoc_below zero zero b c p = simp zero-bit_xor
assoc_below zero (suc a) b c p = elim p [ ]
assoc_below (suc n) a b c p =
    assoc_from_halves a b c (assoc_below n (a / 2) (b / 2) (c / 2) (omega arith))

pub bit_xor_assoc : (a b c : ℕ) → bit_xor (bit_xor a b) c ≡ bit_xor a (bit_xor b c)
bit_xor_assoc a b c = assoc_below a a b c (omega arith)

self_below : (n a : ℕ) → a ≤ n → bit_xor a a ≡ 0
self_below zero zero h = refl
self_below zero (suc a) h = elim h [ ]
self_below (suc n) a h = omega (arith, bit_xor_halves a a, self_below n (a / 2) (omega arith))

pub bit_xor_self : (a : ℕ) → bit_xor a a ≡ 0
bit_xor_self a = self_below a a (omega arith)

pub bit_xor-zero : (a : ℕ) → bit_xor a 0 ≡ a
bit_xor-zero a = bit_xor_comm a 0 ∙ zero-bit_xor a

-- Four terms regrouped, as the linearity of a shift register needs them.
pub bit_xor_swap :
    (a b c d : ℕ) → bit_xor (bit_xor a b) (bit_xor c d) ≡ bit_xor (bit_xor a c) (bit_xor b d)
bit_xor_swap a b c d = cc (
  bit_xor_assoc a b (bit_xor c d),
  bit_xor_assoc a c (bit_xor b d),
  bit_xor_assoc b c d,
  bit_xor_assoc c b d,
  bit_xor_comm b c,
)

pub double_pow : (q k : ℕ) → q * 2 ^ suc k ≡ q * 2 ^ k * 2
double_pow q k = omega (arith, ap (λ (t : ℕ). q * t) (pow-suc 2 k))

-- Numbers with no common digit add up.
pub bit_xor_high_low : (k q r : ℕ) → r < 2 ^ k → bit_xor (q * 2 ^ k) r ≡ q * 2 ^ k + r
bit_xor_high_low zero q r h = ground (arith, bit_xor-zero q)
bit_xor_high_low (suc k) q r h = ground (
  arith,
  bit_xor_halves (q * 2 ^ suc k) r,
  double_pow q k,
  pow-suc 2 k,
  bit_xor_high_low k q (r / 2) (omega (arith, pow-suc 2 k)),
)

div_pow-suc : (k a : ℕ) → a / 2 ^ suc k ≡ a / 2 / 2 ^ k
div_pow-suc k a = rw (pow-suc, mul_comm, ← div-div-eq-div-mul)

-- The digits above position `k`.
pub bit_xor-div_pow : (k a b : ℕ) → bit_xor a b / 2 ^ k ≡ bit_xor (a / 2 ^ k) (b / 2 ^ k)
bit_xor-div_pow zero a b = simp div-one
bit_xor-div_pow (suc k) a b = simp (div_pow-suc, bit_xor-div, bit_xor-div_pow k)

and_zero : (n a : ℕ) → a ≤ n → bit_and a 0 ≡ 0
and_zero zero zero h = refl
and_zero zero (suc a) h = elim h [ ]
and_zero (suc n) a h = omega (arith, bit_and_halves a 0, and_zero n (a / 2) (omega arith))

-- A mask of `k` ones is the remainder by `2 ^ k`.
mask_fields : (k q r : ℕ) → r < 2 ^ k → bit_and (q * 2 ^ k + r) (2 ^ k - 1) ≡ r
mask_fields zero q r h = rw (and_zero (q * 2 ^ 0 + r) (q * 2 ^ 0 + r) (omega arith)) (omega arith)
mask_fields (suc k) q r h = ground (
  arith,
  bit_and_halves (q * 2 ^ suc k + r) (2 ^ suc k - 1),
  double_pow q k,
  pow-suc 2 k,
  one-le-pow k 2,
  mask_fields k q (r / 2) (omega (arith, pow-suc 2 k)),
)

pub bit_and_mask : (k a : ℕ) → bit_and a (2 ^ k - 1) ≡ a % 2 ^ k
bit_and_mask k a = ground (arith, one-le-pow k 2, mask_fields k (a / 2 ^ k) (a % 2 ^ k))

or_zero : (n a : ℕ) → a ≤ n → bit_or a 0 ≡ a
or_zero zero zero h = refl
or_zero zero (suc a) h = elim h [ ]
or_zero (suc n) a h = omega (arith, bit_or_halves a 0, or_zero n (a / 2) (omega arith))

pub bit_or_high_low : (k q r : ℕ) → r < 2 ^ k → bit_or (q * 2 ^ k) r ≡ q * 2 ^ k + r
bit_or_high_low zero q r h = ground (arith, or_zero q q (omega arith))
bit_or_high_low (suc k) q r h = ground (
  arith,
  bit_or_halves (q * 2 ^ suc k) r,
  double_pow q k,
  pow-suc 2 k,
  bit_or_high_low k q (r / 2) (omega (arith, pow-suc 2 k)),
)
