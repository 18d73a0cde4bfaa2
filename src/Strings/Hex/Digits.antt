-- ===== src/Strings/Hex/Digits.antt =====
-- `func` writes the digits of a number in a base.
use native.Mathlib.Nat.{div-add-mod', mod-lt, pow-suc, div-mul-le_self, mul-le-mul_left}
use bhos.Common.{
  not, ◌&&◌, at_below, all_below, ℕ, zero, suc, ◌+◌, ◌-◌, ◌*◌, ◌/◌, ◌%◌, ◌^◌, ◌<◌, ◌≤◌, ◌≡◌, refl,
  sym, ◌∙◌, arith, Bool, true, false, Bool-cases, inl, inr, some, List, [], ◌∷◌, ◌++◌, length,
  length-append, ltb, ◌==◌, if◌then◌else◌, update,
}
use bhos.Bitmap.{Memory}
use bhos.Strings.Spelled.{Spells, placed, placed-outside, inside, strlen-length}
use bhos.Strings.Copy.{Spells-append}
use bhos.Strings.Hex.{hex_bit, put_bit, func}

-- The number has at most `k` base_digits in base `i`.
abbrev pub Fits : ℕ → ℕ → ℕ → Type 0
Fits i zero n = n ≡ 0
Fits i (suc k) n = Fits i k (n / i)

-- The digits of such a number, none for 0.
unfoldable pub base_digits : ℕ → ℕ → ℕ → List ℕ
base_digits i zero n = []
base_digits i (suc k) n =
    let rest = base_digits i k (n / i) in if n == 0 then [] else rest ++ (hex_bit (n % i) ∷ [])

abbrev digit_value : ℕ → ℕ
digit_value c = if ltb c b'A' then c - b'0' else c - 55

-- The number that a string of base_digits in base `i` stands for.
abbrev pub read_base : ℕ → ℕ → List ℕ → ℕ
read_base i acc [] = acc
read_base i acc (c ∷ cs) = read_base i (acc * i + digit_value c) cs

readable : ℕ → Bool
readable d = (digit_value (hex_bit d) == d) && not (hex_bit d == 0)

readable_table : all_below 16 readable ≡ true
unfolding all_below readable
readable_table = refl

hex_bit-readable : (d : ℕ) → d < 16 → readable d ≡ true
hex_bit-readable d h = at_below readable 16 d h readable_table

pub hex_bit-value : (d : ℕ) → d < 16 → digit_value (hex_bit d) ≡ d
unfolding readable
hex_bit-value d h = ground (arith, hex_bit-readable d h)

hex_bit-IsText : (d : ℕ) → d < 16 → (hex_bit d == 0) ≡ false
unfolding readable
hex_bit-IsText d h = ground (arith, hex_bit-readable d h)

pub read_base-append :
    (i acc : ℕ) (cs ds : List ℕ) → read_base i acc (cs ++ ds) ≡ read_base i (read_base i acc cs) ds
read_base-append i acc [] ds = refl
read_base-append i acc (c ∷ cs) ds = read_base-append i (acc * i + digit_value c) cs ds

digit_small : (i n : ℕ) → 0 < i → i ≤ 16 → n % i < 16
digit_small i n p h = omega (arith, mod-lt n p, h)

read_base-base_digits :
    (i k n : ℕ) → Fits i k n → 0 < i → i ≤ 16 → read_base i 0 (base_digits i k n) ≡ n
unfolding base_digits
read_base-base_digits i zero n f p h = sym f
read_base-base_digits i (suc k) n f p h = elim (Bool-cases (n == 0)) [
  | inl e ↦ rw e (ground arith)
  | inr e ↦
      let rest = read_base-base_digits i k (n / i) f p h in
      rw e (
        read_base-append i 0 (base_digits i k (n / i)) (hex_bit (n % i) ∷ [])
        ∙ rw (rest, hex_bit-value (n % i) (digit_small i n p h)) (div-add-mod' n i))
]

pub length-base_digits : (i k n : ℕ) → length (base_digits i k n) ≤ k
unfolding base_digits
length-base_digits i zero n = omega arith
length-base_digits i (suc k) n =
    let joint = length-append (base_digits i k (n / i)) (hex_bit (n % i) ∷ []) in
    ground (arith, length-base_digits i k (n / i), joint)

put_bit-Spells :
    (fuel s digit : ℕ) (m : Memory) (cs : List ℕ)
    → Spells m s cs
    → digit < 16
    → length cs < fuel
    → (m' : Memory) × (put_bit fuel s digit m ≡ some m')
      × Spells m' s (cs ++ (hex_bit digit ∷ []))
      × ((o : ℕ) → (if inside s (length cs + 1) o then m o else m' o) ≡ m o)
unfolding put_bit
put_bit-Spells fuel s digit m cs t small f =
    let end : ℕ = s + length cs in
    (
      placed end (hex_bit digit ∷ []) m,
      rw (put_bit, strlen-length fuel m s cs t f) refl,
      Spells-append m s end cs (hex_bit digit ∷ []) refl t (hex_bit-IsText digit small, tt),
      (λ o. ground (arith, placed-outside end (hex_bit digit ∷ []) m o)),
    )

beside_step :
    (s k n : ℕ) (m m1 m2 : Memory)
    → n ≤ k
    → ((o : ℕ) → (if inside s k o then m o else m1 o) ≡ m o)
    → ((o : ℕ) → (if inside s (n + 1) o then m1 o else m2 o) ≡ m1 o)
    → (o : ℕ) → (if inside s (suc k) o then m o else m2 o) ≡ m o
beside_step s k n m m1 m2 short first second o = ground (arith, first o, second o)

func-run :
    (fuel s n i : ℕ) (m m1 m2 : Memory)
    → (n == 0) ≡ false
    → func fuel s (n / i) i m ≡ some m1
    → put_bit fuel s (n % i) m1 ≡ some m2
    → func (suc fuel) s n i m ≡ some m2
unfolding func
func-run fuel s n i m m1 m2 e first second = rw (func, e, first) second

-- `func` returns with the digits of the number in a base of at most 16 as a string at `s`, none for 0, and
-- changes no byte behind the room for `k` digits, when `k` digits are enough and a round is left.
pub func-Spells :
    (k fuel s n i : ℕ) (m : Memory)
    → Fits i k n
    → 0 < i
    → i ≤ 16
    → k < fuel
    → (m' : Memory) × (func fuel s n i m ≡ some m')
      × Spells m' s (base_digits i k n)
      × ((o : ℕ) → (if inside s k o then m o else m' o) ≡ m o)
unfolding func base_digits
func-Spells zero zero s n i m f p h r = absurd (omega arith)
func-Spells (suc k) zero s n i m f p h r = absurd (omega arith)
func-Spells zero (suc fuel) s n i m f p h r =
    let stop : (n == 0) ≡ true = ground (arith, f) in
    (update m s 0, rw (func, stop) refl, ground arith, (λ o. ground arith))
func-Spells (suc k) (suc fuel) s n i m f p h r = elim (Bool-cases (n == 0)) [
  | inl e ↦ (update m s 0, rw (func, e) refl, rw e (ground arith), (λ o. ground arith))
  | inr e ↦
      let (m1, first, text, beside) = func-Spells k fuel s (n / i) i m f p h (omega arith) in
      let short = length-base_digits i k (n / i) in
      let (m2, second, longer, around) =
        put_bit-Spells fuel s (n % i) m1 (base_digits i k (n / i)) text (digit_small i n p h)
          (omega (arith, short)) in
      (
        m2,
        func-run fuel s n i m m1 m2 e first second,
        rw e longer,
        beside_step s k (length (base_digits i k (n / i))) m m1 m2 short beside around,
      )
]

-- A number below 2 ^ k has at most `k` digits in any base but 0 and 1.
div_half : (i n : ℕ) → 2 ≤ i → n / i ≤ n / 2
div_half i n h = omega (arith, div-mul-le_self n i, mul-le-mul_left (n / i) h)

pub Fits-pow : (i k n : ℕ) → 2 ≤ i → n < 2 ^ k → Fits i k n
Fits-pow i zero n h lt = omega arith
Fits-pow i (suc k) n h lt = Fits-pow i k (n / i) h (omega (arith, div_half i n h, pow-suc 2 k))

-- `func` returns for every word and every base from 2 to 16, with 33 rounds, and leaves a string at `s` that
-- reads as the word in that base.
pub func-read_base :
    (fuel s n i : ℕ) (m : Memory)
    → n < 2 ^ 32
    → 2 ≤ i
    → i ≤ 16
    → 32 < fuel
    → (cs : List ℕ) × (m' : Memory) × (func fuel s n i m ≡ some m')
      × Spells m' s cs
      × (read_base i 0 cs ≡ n)
      × ((o : ℕ) → (if inside s 32 o then m o else m' o) ≡ m o)
func-read_base fuel s n i m h two le f =
    let fits = Fits-pow i 32 n two h in
    let (m', run, text, beside) = func-Spells 32 fuel s n i m fits (omega arith) le f in
    (base_digits i 32 n, m', run, text, read_base-base_digits i 32 n fits (omega arith) le, beside)
