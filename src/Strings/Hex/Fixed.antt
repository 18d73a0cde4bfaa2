-- ===== src/Strings/Hex/Fixed.antt =====
-- The eight hexadecimal digits of a word.
use bhos.Common.{
  ℕ, zero, suc, ◌-◌, ◌/◌, ◌%◌, ◌^◌, ◌<◌, ◌≡◌, refl, sym, ap, ◌∙◌, arith, Bool-cases, inl, inr, List,
  [], ◌∷◌, ◌++◌, length, length-append, ◌==◌, replicate,
}
use bhos.Strings.Hex.{hex_bit}
use bhos.Strings.Hex.Digits.{Fits, base_digits, read_base, read_base-append, hex_bit-value}

-- The last `k` hexadecimal digits of a number, the first one first.
unfoldable pub hex_fixed : ℕ → ℕ → List ℕ
hex_fixed zero n = []
hex_fixed (suc k) n = hex_fixed k (n / 16) ++ (hex_bit (n % 16) ∷ [])

replicate-snoc : (k a : ℕ) → replicate k a ++ (a ∷ []) ≡ a ∷ replicate k a
replicate-snoc zero a = refl
replicate-snoc (suc k) a = ap (λ (l : List ℕ). a ∷ l) (replicate-snoc k a)

pub append_nil : (xs : List ℕ) → xs ++ [] ≡ xs
append_nil [] = refl
append_nil (x ∷ xs) = ap (λ (l : List ℕ). x ∷ l) (append_nil xs)

pub append_assoc : (xs ys zs : List ℕ) → (xs ++ ys) ++ zs ≡ xs ++ (ys ++ zs)
append_assoc [] ys zs = refl
append_assoc (x ∷ xs) ys zs = ap (λ (l : List ℕ). x ∷ l) (append_assoc xs ys zs)

pub hex_fixed-zero : (k : ℕ) → hex_fixed k 0 ≡ replicate k b'0'
unfolding hex_fixed
hex_fixed-zero zero = refl
hex_fixed-zero (suc k) = rw (hex_fixed-zero k) (replicate-snoc k b'0')

-- '0's and the digits without them are the digits of fixed length.
pub hex_fixed-replicate :
    (k n : ℕ)
    → Fits 16 k n
    → hex_fixed k n ≡ replicate (k - length (base_digits 16 k n)) b'0' ++ base_digits 16 k n
unfolding hex_fixed base_digits
hex_fixed-replicate zero n f = refl
hex_fixed-replicate (suc k) n f = elim (Bool-cases (n == 0)) [
  | inl e ↦
      let front : n / 16 ≡ 0 = ground arith in
      let last : n % 16 ≡ 0 = ground arith in
      let whole : suc k - 0 ≡ suc k = omega arith in
      rw (e, front, last, hex_fixed-zero k, whole)
        (replicate-snoc k b'0' ∙ sym (append_nil (replicate (suc k) b'0')))
  | inr e ↦
      let ds = base_digits 16 k (n / 16) in
      let joint = length-append ds (hex_bit (n % 16) ∷ []) in
      let at : suc k - length (ds ++ (hex_bit (n % 16) ∷ [])) ≡ k - length ds =
        omega (arith, joint) in
      rw (e, at, hex_fixed-replicate k (n / 16) f)
        (append_assoc (replicate (k - length ds) b'0') ds (hex_bit (n % 16) ∷ []))
]

pub length-hex_fixed : (k n : ℕ) → length (hex_fixed k n) ≡ k
unfolding hex_fixed
length-hex_fixed zero n = refl
length-hex_fixed (suc k) n =
    length-append (hex_fixed k (n / 16)) (hex_bit (n % 16) ∷ [])
    ∙ omega (arith, length-hex_fixed k (n / 16))

read_base-hex_fixed : (k n : ℕ) → Fits 16 k n → read_base 16 0 (hex_fixed k n) ≡ n
unfolding hex_fixed
read_base-hex_fixed zero n f = sym f
read_base-hex_fixed (suc k) n f =
    read_base-append 16 0 (hex_fixed k (n / 16)) (hex_bit (n % 16) ∷ [])
    ∙ rw (read_base-hex_fixed k (n / 16) f, hex_bit-value (n % 16) (omega arith)) (omega arith)

pub Fits-word : (n : ℕ) → n < 2 ^ 32 → Fits 16 8 n
Fits-word n h = omega arith

-- The eight digits of a word read as the word.
pub read_base-word : (n : ℕ) → n < 2 ^ 32 → read_base 16 0 (hex_fixed 8 n) ≡ n
read_base-word n h = read_base-hex_fixed 8 n (Fits-word n h)
