-- ===== src/Prelude/Bits.antt =====
-- Laws of `bit_or` and `bit_and` at variables: fields that do not overlap add up, and a mask of
-- ones is a remainder.
use Prim.Native.Nat.{
  ℕ, zero, suc, ◌+◌, ◌-◌, ◌*◌, ◌/◌, ◌%◌, ◌^◌, ◌≤◌, ◌<◌, min, max, bit_and, bit_or, digits,
  bit_and-bitwise, bit_or-bitwise,
}
use mathlib.Core.Path.{◌≡◌, refl, ap}
use native.Mathlib.Omega.{arith}
use native.Mathlib.Nat.{pow-suc}

-- Both operations recur on the halves, on as much fuel as the left operand.
fuel_irrelevant_or :
    (n m a b : ℕ) → a ≤ n → a ≤ m → digits (λ b. b) max n a b ≡ digits (λ b. b) max m a b
fuel_irrelevant_or zero zero a b p q = refl
fuel_irrelevant_or zero (suc m) zero b p q = refl
fuel_irrelevant_or (suc n) zero zero b p q = refl
fuel_irrelevant_or zero (suc m) (suc a) b p q = absurd (omega arith)
fuel_irrelevant_or (suc n) zero (suc a) b p q = absurd (omega arith)
fuel_irrelevant_or (suc n) (suc m) zero b p q = refl
fuel_irrelevant_or (suc n) (suc m) (suc a) b p q =
    omega (arith, fuel_irrelevant_or n m (suc a / 2) (b / 2) (omega arith) (omega arith))

bit_or-halves : (a b : ℕ) → bit_or a b ≡ bit_or (a / 2) (b / 2) * 2 + max (a % 2) (b % 2)
bit_or-halves zero b = omega (arith, bit_or-bitwise 0 b, bit_or-bitwise 0 (b / 2))
bit_or-halves (suc a) b = omega (
  arith,
  bit_or-bitwise (suc a) b,
  bit_or-bitwise (suc a / 2) (b / 2),
  fuel_irrelevant_or a (suc a / 2) (suc a / 2) (b / 2) (omega arith) (omega arith),
)

fuel_irrelevant_and :
    (n m a b : ℕ) → a ≤ n → a ≤ m → digits (λ b. zero) min n a b ≡ digits (λ b. zero) min m a b
fuel_irrelevant_and zero zero a b p q = refl
fuel_irrelevant_and zero (suc m) zero b p q = refl
fuel_irrelevant_and (suc n) zero zero b p q = refl
fuel_irrelevant_and zero (suc m) (suc a) b p q = absurd (omega arith)
fuel_irrelevant_and (suc n) zero (suc a) b p q = absurd (omega arith)
fuel_irrelevant_and (suc n) (suc m) zero b p q = refl
fuel_irrelevant_and (suc n) (suc m) (suc a) b p q =
    omega (arith, fuel_irrelevant_and n m (suc a / 2) (b / 2) (omega arith) (omega arith))

bit_and-halves : (a b : ℕ) → bit_and a b ≡ bit_and (a / 2) (b / 2) * 2 + min (a % 2) (b % 2)
bit_and-halves zero b = omega (arith, bit_and-bitwise 0 b, bit_and-bitwise 0 (b / 2))
bit_and-halves (suc a) b = omega (
  arith,
  bit_and-bitwise (suc a) b,
  bit_and-bitwise (suc a / 2) (b / 2),
  fuel_irrelevant_and a (suc a / 2) (suc a / 2) (b / 2) (omega arith) (omega arith),
)

bit_or-zero_below : (n a : ℕ) → a ≤ n → bit_or a 0 ≡ a
bit_or-zero_below n zero h = refl
bit_or-zero_below zero (suc a) h = absurd (omega arith)
bit_or-zero_below (suc n) (suc a) h =
    omega (arith, bit_or-halves (suc a) 0, bit_or-zero_below n (suc a / 2) (omega arith))

pub bit_or-zero : (a : ℕ) → bit_or a 0 ≡ a
bit_or-zero a = bit_or-zero_below a a (omega arith)

bit_and-zero_below : (n a : ℕ) → a ≤ n → bit_and a 0 ≡ 0
bit_and-zero_below n zero h = refl
bit_and-zero_below zero (suc a) h = absurd (omega arith)
bit_and-zero_below (suc n) (suc a) h =
    omega (arith, bit_and-halves (suc a) 0, bit_and-zero_below n (suc a / 2) (omega arith))

shift-suc : (x k : ℕ) → x * 2 ^ suc k ≡ 2 * (x * 2 ^ k)
shift-suc x k = omega (arith, ap (λ (t : ℕ). x * t) (pow-suc 2 k))

-- The low `k` bits of the right operand pass through what is shifted by `k`.
pub bit_or-shifted :
    (k x y z : ℕ) → z < 2 ^ k → bit_or (x * 2 ^ k) (y * 2 ^ k + z) ≡ bit_or x y * 2 ^ k + z
bit_or-shifted zero x y z h =
    let e : bit_or (x * 1) (y * 1 + z) ≡ bit_or x y = ap₂' (omega arith) (omega arith) in
    omega (arith, e)
  where
    ap₂' : {a b c d : ℕ} → a ≡ b → c ≡ d → bit_or a c ≡ bit_or b d
    ap₂' p q = λ i. bit_or (p i) (q i)
bit_or-shifted (suc k) x y z h = ground (
  arith,
  bit_or-halves (x * 2 ^ suc k) (y * 2 ^ suc k + z),
  shift-suc x k,
  shift-suc y k,
  shift-suc (bit_or x y) k,
  bit_or-shifted k x y (z / 2) (omega arith),
)

-- Fields that do not overlap add up.
pub bit_or-field : (k x z : ℕ) → z < 2 ^ k → bit_or (x * 2 ^ k) z ≡ x * 2 ^ k + z
bit_or-field k x z h = ground (arith, bit_or-shifted k x 0 z h, bit_or-zero x)

two-pow_pos : (k : ℕ) → 1 ≤ 2 ^ k
two-pow_pos zero = omega arith
two-pow_pos (suc k) = omega (arith, pow-suc 2 k, two-pow_pos k)

mask-low : (k s t : ℕ) → t < 2 ^ k → bit_and (s * 2 ^ k + t) (2 ^ k - 1) ≡ t
mask-low zero s t h = ground (arith, bit_and-zero_below (s * 1 + t) (s * 1 + t) (omega arith))
mask-low (suc k) s t h = ground (
  arith,
  bit_and-halves (s * 2 ^ suc k + t) (2 ^ suc k - 1),
  shift-suc s k,
  pow-suc 2 k,
  two-pow_pos k,
  mask-low k s (t / 2) (omega arith),
)

-- A mask of `k` ones keeps the low `k` bits.
pub bit_and-mask : (k a : ℕ) → bit_and a (2 ^ k - 1) ≡ a % 2 ^ k
bit_and-mask k a = ground (arith, two-pow_pos k, mask-low k (a / 2 ^ k) (a % 2 ^ k))

-- The same, for a left operand whose low `k` bits are clear.
pub bit_or-disjoint : (k a b : ℕ) → a % 2 ^ k ≡ 0 → b < 2 ^ k → bit_or a b ≡ a + b
bit_or-disjoint k a b clear h = ground (arith, two-pow_pos k, bit_or-field k (a / 2 ^ k) b h)
