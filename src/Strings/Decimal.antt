-- ===== src/Strings/Decimal.antt =====
-- `uintTostring` prints the decimal digits of a number.
use mathlib.Core.List.{reverse, reverse-cons}
use native.Mathlib.Nat.{pow-suc}
use bhos.Common.{
  ℕ, zero, suc, ◌+◌, ◌-◌, ◌*◌, ◌/◌, ◌%◌, ◌^◌, ◌<◌, ◌≤◌, ◌≡◌, refl, sym, ap, ◌∙◌, arith, Bool, false,
  Bool-cases, inl, inr, some, List, [], ◌∷◌, ◌++◌, length, leb, if◌then◌else◌, update,
}
use bhos.Bitmap.{Memory}
use bhos.Strings.{put_digits, i2stable, strrevers, uint_to_string}
use bhos.Strings.Spelled.{Spells, Spells-placed, placed, placed-outside, inside, IsText}
use bhos.Strings.Reverse.{strrevers-reverse, length-reverse}

-- The digits of a number below 10 ^ k, the last one first.
unfoldable pub low_digits : ℕ → ℕ → List ℕ
low_digits zero n = []
low_digits (suc k) n =
    let rest = low_digits k (n / 10) in
    if leb 10 n then i2stable (n % 10) ∷ rest else i2stable n ∷ []

low_value : List ℕ → ℕ
low_value [] = 0
low_value (c ∷ cs) = c - b'0' + 10 * low_value cs

low_value-low_digits : (k n : ℕ) → 0 < k → n < 10 ^ k → low_value (low_digits k n) ≡ n
unfolding low_value low_digits
low_value-low_digits zero n p h = absurd (omega arith)
low_value-low_digits (suc zero) n p h = ground arith
low_value-low_digits (suc (suc k)) n p h = elim (Bool-cases (leb 10 n)) [
  | inl e ↦
      let smaller : n / 10 < 10 ^ suc k = omega (arith, pow-suc 10 (suc k)) in
      let rest = low_value-low_digits (suc k) (n / 10) (omega arith) smaller in
      rw e (omega (arith, rest))
  | inr e ↦ rw e (omega arith)
]

length-low_digits : (k n : ℕ) → length (low_digits k n) ≤ k
unfolding low_digits
length-low_digits zero n = omega arith
length-low_digits (suc k) n = ground (arith, length-low_digits k (n / 10))

-- Only the characters '0' to '9'.
abbrev pub AreDigits : List ℕ → Type 0
AreDigits [] = Unit
AreDigits (c ∷ cs) = ((b'0' ≤ c) × (c ≤ b'9')) × AreDigits cs

AreDigits-low_digits : (k n : ℕ) → 0 < k → n < 10 ^ k → AreDigits (low_digits k n)
unfolding low_digits
AreDigits-low_digits zero n p h = absurd (omega arith)
AreDigits-low_digits (suc zero) n p h = ground arith
AreDigits-low_digits (suc (suc k)) n p h = elim (Bool-cases (leb 10 n)) [
  | inl e ↦
      let smaller : n / 10 < 10 ^ suc k = omega (arith, pow-suc 10 (suc k)) in
      rw e ((omega arith, omega arith), AreDigits-low_digits (suc k) (n / 10) (omega arith) smaller)
  | inr e ↦ rw e ((omega arith, ground arith), tt)
]

AreDigits-IsText : (cs : List ℕ) → AreDigits cs → IsText cs
AreDigits-IsText [] d = tt
AreDigits-IsText (c ∷ cs) d = (ground (arith, d.0.0), AreDigits-IsText cs d.1)

put_digits-placed :
    (k fuel num ptr : ℕ) (m : Memory)
    → 0 < k
    → num < 10 ^ k
    → k ≤ fuel
    → put_digits fuel num ptr m ≡ some (placed ptr (low_digits k num) m)
unfolding put_digits low_digits
put_digits-placed zero fuel num ptr m p h f = absurd (omega arith)
put_digits-placed (suc k) zero num ptr m p h f = absurd (omega arith)
put_digits-placed (suc zero) (suc fuel) num ptr m p h f =
    let e : leb 10 num ≡ false = ground arith in rw (put_digits, e) refl
put_digits-placed (suc (suc k)) (suc fuel) num ptr m p h f = elim (Bool-cases (leb 10 num)) [
  | inl e ↦
      let smaller : num / 10 < 10 ^ suc k = omega (arith, pow-suc 10 (suc k)) in
      let digit : num - num / 10 * 10 ≡ num % 10 = omega arith in
      rw (put_digits, e, digit)
        (put_digits-placed (suc k) fuel (num / 10) (ptr + 1) (update m ptr (i2stable (num % 10)))
          (omega arith) smaller (omega arith))
  | inr e ↦ rw (put_digits, e) refl
]

-- The number that a string of digits stands for.
abbrev read_from : ℕ → List ℕ → ℕ
read_from acc [] = acc
read_from acc (c ∷ cs) = read_from (acc * 10 + (c - b'0')) cs

abbrev pub read_decimal : List ℕ → ℕ
read_decimal = read_from 0

read_from-append :
    (acc : ℕ) (cs ds : List ℕ) → read_from acc (cs ++ ds) ≡ read_from (read_from acc cs) ds
read_from-append acc [] ds = refl
read_from-append acc (c ∷ cs) ds = read_from-append (acc * 10 + (c - b'0')) cs ds

read_decimal-reverse : (cs : List ℕ) → read_decimal (reverse cs) ≡ low_value cs
unfolding low_value
read_decimal-reverse [] = refl
read_decimal-reverse (c ∷ cs) =
    rw (reverse-cons c cs)
      (read_from-append 0 (reverse cs) (c ∷ []) ∙ omega (arith, read_decimal-reverse cs))

AreDigits-append : (cs ds : List ℕ) → AreDigits cs → AreDigits ds → AreDigits (cs ++ ds)
AreDigits-append [] ds t u = u
AreDigits-append (c ∷ cs) ds t u = (t.0, AreDigits-append cs ds t.1 u)

AreDigits-reverse : (cs : List ℕ) → AreDigits cs → AreDigits (reverse cs)
AreDigits-reverse [] t = tt
AreDigits-reverse (c ∷ cs) t =
    rw (reverse-cons c cs)
      (AreDigits-append (reverse cs) (c ∷ []) (AreDigits-reverse cs t.1) (t.0, tt))

uint_to_string-run :
    (fuel buffer num : ℕ) (m filled m' : Memory)
    → put_digits fuel num buffer m ≡ some filled
    → strrevers fuel buffer filled ≡ some m'
    → uint_to_string fuel buffer num m ≡ some m'
unfolding uint_to_string
uint_to_string-run fuel buffer num m filled m' put run = rw (uint_to_string, put) run

beside_digits :
    (buffer : ℕ) (ls : List ℕ) (m m' : Memory)
    → length ls ≤ 10
    → ((o : ℕ)
        → (if inside buffer (length ls) o then placed buffer ls m o else m' o)
          ≡ placed buffer ls m o)
    → (o : ℕ) → (if inside buffer 10 o then m o else m' o) ≡ m o
beside_digits buffer ls m m' short beside o = elim (Bool-cases (inside buffer 10 o)) [
  | inl e ↦ rw e refl
  | inr e ↦
      let outer : inside buffer (length ls) o ≡ false = ground (arith, short) in
      let same =
        sym (ap (λ (b : Bool). if b then placed buffer ls m o else m' o) outer) ∙ beside o in
      rw e (same ∙ placed-outside buffer ls m o outer)
]

-- The decimal digits of a 32-bit number.
abbrev pub decimal : ℕ → List ℕ
decimal num = reverse (low_digits 10 num)

pub length-decimal : (num : ℕ) → length (decimal num) ≤ 10
length-decimal num =
    let ls = low_digits 10 num in omega (arith, length-low_digits 10 num, length-reverse ls)

pub uint_to_string-decimal :
    (fuel buffer num : ℕ) (m : Memory)
    → num < 2 ^ 32
    → 10 < fuel
    → (m' : Memory) × (uint_to_string fuel buffer num m ≡ some m')
      × Spells m' buffer (decimal num)
      × ((o : ℕ) → (if inside buffer 10 o then m o else m' o) ≡ m o)
uint_to_string-decimal fuel buffer num m h f =
    let ls = low_digits 10 num in
    let digits = AreDigits-low_digits 10 num (omega arith) (omega arith) in
    let short = length-low_digits 10 num in
    let filled = placed buffer ls m in
    let (m', run, spelled, beside) =
      strrevers-reverse fuel buffer filled ls
        (Spells-placed buffer ls m (AreDigits-IsText ls digits)) (omega (arith, short)) in
    (
      m',
      uint_to_string-run fuel buffer num m filled m'
          (put_digits-placed 10 fuel num buffer m (omega arith) (omega arith) (omega arith)) run,
      spelled,
      beside_digits buffer ls m m' short beside,
    )

-- For every 32-bit number `uintTostring` leaves in its array a string of at most ten digits that reads as
-- the number, and changes no byte but the first eleven. Eleven rounds are enough for each loop.
pub uint_to_string-read_decimal :
    (fuel buffer num : ℕ) (m : Memory)
    → num < 2 ^ 32
    → 10 < fuel
    → (cs : List ℕ) × (m' : Memory) × (uint_to_string fuel buffer num m ≡ some m')
      × Spells m' buffer cs
      × AreDigits cs
      × (length cs ≤ 10)
      × (read_decimal cs ≡ num)
      × ((o : ℕ) → (if inside buffer 10 o then m o else m' o) ≡ m o)
uint_to_string-read_decimal fuel buffer num m h f =
    let ls = low_digits 10 num in
    let digits = AreDigits-low_digits 10 num (omega arith) (omega arith) in
    let (m', run, spelled, beside) = uint_to_string-decimal fuel buffer num m h f in
    (
      decimal num,
      m',
      run,
      spelled,
      AreDigits-reverse ls digits,
      length-decimal num,
      read_decimal-reverse ls ∙ low_value-low_digits 10 num (omega arith) (omega arith),
      beside,
    )
