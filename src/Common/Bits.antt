-- ===== src/Common/Bits.antt =====
-- `&` and `|` at variables: masks of low bits, masks with low zeros, and sums of disjoint fields.
use Prim.Native.Nat.{
  ℕ, zero, suc, ◌+◌, ◌-◌, ◌*◌, ◌/◌, ◌%◌, ◌^◌, ◌≤◌, ◌<◌, min, max, bit_and, bit_or, digits,
  bit_and-bitwise, bit_or-bitwise,
}
use mathlib.Core.Path.{◌≡◌, refl, ap, sym, ◌∙◌}
use mathlib.Core.Bool.{Bool, true, ◌&&◌}
use native.Mathlib.Nat.{
  pow-suc, one-le-pow, div-div-eq-div-mul, mod-eq-sub-div-mul, div-mul-le_self,
}
use native.Mathlib.Omega.{arith}

-- The test holds at every number below the bound.
unfoldable pub all_below : ℕ → (ℕ → Bool) → Bool
all_below zero test = true
all_below (suc bound) test = all_below bound test && test bound

pub at_below :
    (test : ℕ → Bool) (bound k : ℕ) → k < bound → all_below bound test ≡ true → test k ≡ true
unfolding all_below
at_below test zero k lt all = elim lt [ ]
at_below test (suc bound) k lt all = ground (arith, at_below test bound k)

-- The native operations run on binary digits with fuel; any fuel that reaches the number will do.
module _ (base : ℕ → ℕ) (op : ℕ → ℕ → ℕ) where
  same_digits : (m n a b : ℕ) → a ≤ m → a ≤ n → digits base op m a b ≡ digits base op n a b
  same_digits zero zero a b h k = refl
  same_digits zero (suc n) zero b h k = refl
  same_digits (suc m) zero zero b h k = refl
  same_digits (suc m) (suc n) zero b h k = refl
  same_digits zero (suc n) (suc a) b h k = absurd (omega arith)
  same_digits (suc m) zero (suc a) b h k = absurd (omega arith)
  same_digits (suc m) (suc n) (suc a) b h k =
      rw (same_digits m n (suc a / 2) (b / 2) (omega arith) (omega arith))

-- One binary digit at a time.
pub bit_and-digit : (a b : ℕ) → bit_and a b ≡ bit_and (a / 2) (b / 2) * 2 + min (a % 2) (b % 2)
bit_and-digit zero b = simp bit_and-bitwise (omega arith)
bit_and-digit (suc a) b = simp bit_and-bitwise (
    omega (
      arith,
      same_digits (λ y. 0) min a (suc a / 2) (suc a / 2) (b / 2) (omega arith) (omega arith),
    ))

pub bit_or-digit : (a b : ℕ) → bit_or a b ≡ bit_or (a / 2) (b / 2) * 2 + max (a % 2) (b % 2)
bit_or-digit zero b = simp bit_or-bitwise (omega arith)
bit_or-digit (suc a) b = simp bit_or-bitwise (
    omega (
      arith,
      same_digits (λ y. y) max a (suc a / 2) (suc a / 2) (b / 2) (omega arith) (omega arith),
    ))

-- With nothing on the right, by any bound on the left number.
bit_and_nil : (m a : ℕ) → a ≤ m → bit_and a 0 ≡ 0
bit_and_nil m zero h = refl
bit_and_nil zero (suc a) h = absurd (omega arith)
bit_and_nil (suc m) (suc a) h =
    omega (arith, bit_and-digit (suc a) 0, bit_and_nil m (suc a / 2) (omega arith))

bit_or_nil : (m a : ℕ) → a ≤ m → bit_or a 0 ≡ a
bit_or_nil m zero h = refl
bit_or_nil zero (suc a) h = absurd (omega arith)
bit_or_nil (suc m) (suc a) h =
    omega (arith, bit_or-digit (suc a) 0, bit_or_nil m (suc a / 2) (omega arith))

double : (q k : ℕ) → q * 2 ^ suc k ≡ 2 * (q * 2 ^ k)
double q k = omega (arith, ap (λ (t : ℕ). q * t) (pow-suc 2 k))

div_two_pow : (a k : ℕ) → a / 2 ^ suc k ≡ a / 2 / 2 ^ k
div_two_pow a k =
    let e : 2 ^ suc k ≡ 2 * 2 ^ k = omega (arith, pow-suc 2 k) in
    ap (λ (t : ℕ). a / t) e ∙ sym (div-div-eq-div-mul a 2 (2 ^ k))

mod_two_pow : (a k : ℕ) → a % 2 ^ suc k ≡ a / 2 % 2 ^ k * 2 + a % 2
mod_two_pow a k = omega (
  arith,
  mod-eq-sub-div-mul a (2 ^ suc k),
  mod-eq-sub-div-mul (a / 2) (2 ^ k),
  ap (λ (t : ℕ). t * 2 ^ suc k) (div_two_pow a k),
  double (a / 2 / 2 ^ k) k,
  div-mul-le_self (a / 2) (2 ^ k),
)

-- `&` with a mask of k ones keeps the k low bits.
pub bit_and_low : (k a : ℕ) → bit_and a (2 ^ k - 1) ≡ a % 2 ^ k
bit_and_low zero a = omega (arith, bit_and_nil a a)
bit_and_low (suc k) a = ground (
  arith,
  bit_and-digit a (2 ^ suc k - 1),
  pow-suc 2 k,
  one-le-pow k 2,
  bit_and_low k (a / 2),
  mod_two_pow a k,
)

-- `&` with a mask that ends in k zeros drops the k low bits.
pub bit_and_high : (k a m : ℕ) → bit_and a (m * 2 ^ k) ≡ bit_and (a / 2 ^ k) m * 2 ^ k
bit_and_high zero a m = ground arith
bit_and_high (suc k) a m = ground (
  arith,
  bit_and-digit a (m * 2 ^ suc k),
  double m k,
  double (bit_and (a / 2 / 2 ^ k) m) k,
  bit_and_high k (a / 2) m,
  ap (λ (t : ℕ). bit_and t m) (div_two_pow a k),
  ap (λ (t : ℕ). bit_and t m * 2 ^ suc k) (div_two_pow a k),
)

-- `|` of a number with k low zeros and a number below 2^k is their sum.
pub bit_or_sum : (k q r : ℕ) → r < 2 ^ k → bit_or (q * 2 ^ k) r ≡ q * 2 ^ k + r
bit_or_sum zero q r h = ground (arith, bit_or_nil q q)
bit_or_sum (suc k) q r h =
    ground (arith, bit_or-digit (q * 2 ^ suc k) r, double q k, pow-suc 2 k, bit_or_sum k q (r / 2))

-- The same with the mask on the left.
pub bit_and_mask : (k a : ℕ) → bit_and (2 ^ k - 1) a ≡ a % 2 ^ k
bit_and_mask zero a = simp bit_and-bitwise (omega arith)
bit_and_mask (suc k) a = ground (
  arith,
  bit_and-digit (2 ^ suc k - 1) a,
  pow-suc 2 k,
  one-le-pow k 2,
  bit_and_mask k (a / 2),
  mod_two_pow a k,
)

-- `| 1` sets the lowest bit.
pub bit_or_one : (w : ℕ) → bit_or w 1 ≡ w / 2 * 2 + 1
bit_or_one w = omega (arith, bit_or-digit w 1, bit_or_nil (w / 2) (w / 2))
