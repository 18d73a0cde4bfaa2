-- ===== src/Bitmap/Bits.antt =====
-- One byte of the bitmap: the bits that the operations test, clear and set.
use bhos.Common.{
  ℕ, ◌+◌, ◌-◌, ◌/◌, ◌%◌, ◌^◌, ◌<◌, ◌≡◌, refl, Bool, true, false, ◌&&◌, ◌||◌, Option, none, some,
  arith, ltb, ◌==◌, if◌then◌else◌, bit_or, all_below, at_below, ==→eq, ◌≢◌, not,
}
use bhos.Bitmap.{byte_mask, first_bit}

-- Bit `j` of a byte, from the left.
unfoldable pub bit : ℕ → ℕ → Bool
bit b j = b / 2 ^ (7 - j) % 2 == 1

same_bool : Bool → Bool → Bool
same_bool true b = b
same_bool false true = false
same_bool false false = true

same_bool_eq : (a b : Bool) → same_bool a b ≡ true → a ≡ b
unfolding same_bool
same_bool_eq a b h = ground arith

-- A test of all bytes and two bit positions.
all_bits : (ℕ → ℕ → ℕ → Bool) → Bool
all_bits p = all_below 256 λ b. all_below 8 λ j. all_below 8 λ k. p b j k

all_bits_sound :
    (p : ℕ → ℕ → ℕ → Bool) (b j k : ℕ)
    → all_bits p ≡ true
    → b < 256
    → j < 8
    → k < 8
    → p b j k ≡ true
unfolding all_bits
all_bits_sound p b j k h hb hj hk = at_below (p b j) 8 k hk (
    at_below (λ j. all_below 8 λ k. p b j k) 8 j hj
      (at_below (λ b. all_below 8 λ j. all_below 8 λ k. p b j k) 256 b hb h))

clears : ℕ → ℕ → ℕ → Bool
clears b j k =
    not (bit b j)
    || same_bool (bit ((b + 2 ^ 8 - byte_mask j) % 2 ^ 8) k) (if j == k then false else bit b k)

clears_table : all_bits clears ≡ true
unfolding all_bits clears all_below bit same_bool
clears_table = refl

sets : ℕ → ℕ → ℕ → Bool
sets b j k =
    ltb (bit_or b (byte_mask j)) 256
    && (same_bool (b == bit_or b (byte_mask j)) (bit b j)
        && same_bool (bit (bit_or b (byte_mask j)) k) (if j == k then true else bit b k))

sets_table : all_bits sets ≡ true
unfolding all_bits sets all_below bit same_bool
sets_table = refl

-- Subtracting the mask of a bit that is set clears it and leaves the others.
pub bit-clear :
    (b j k : ℕ)
    → b < 256
    → j < 8
    → k < 8
    → bit b j ≡ true
    → bit ((b + 2 ^ 8 - byte_mask j) % 2 ^ 8) k ≡ (if j == k then false else bit b k)
unfolding clears
bit-clear b j k hb hj hk set =
    same_bool_eq _ _ (ground (arith, all_bits_sound clears b j k clears_table hb hj hk))

-- `|` with the mask of a bit sets it and leaves the others; the byte stays the same exactly if the
-- bit was set.
pub bit-set :
    (b j k : ℕ)
    → b < 256
    → j < 8
    → k < 8
    → (bit_or b (byte_mask j) < 256)
      × ((b == bit_or b (byte_mask j)) ≡ bit b j)
      × (bit (bit_or b (byte_mask j)) k ≡ (if j == k then true else bit b k))
unfolding sets
bit-set b j k hb hj hk =
    let all = all_bits_sound sets b j k sets_table hb hj hk in
    (ground arith, same_bool_eq _ _ (ground arith), same_bool_eq _ _ (ground arith))

is_first : ℕ → ℕ → Bool
is_first b k = elim (first_bit 8 0 b) [
  | none ↦ b == 0
  | some p ↦ ltb p 8 && (bit b p && (not (ltb k p) || not (bit b k)))
]

first_table : (all_below 256 λ b. all_below 8 λ k. is_first b k) ≡ true
unfolding all_below is_first first_bit bit
first_table = refl

is_first-none : (b k : ℕ) → is_first b k ≡ true → first_bit 8 0 b ≡ none → b ≡ 0
unfolding is_first
is_first-none b k h e = ==→eq b 0 (rw (e, is_first) at h)

is_first-some :
    (b k p : ℕ)
    → is_first b k ≡ true
    → first_bit 8 0 b ≡ some p
    → (p < 8) × (bit b p ≡ true) × (k < p → bit b k ≡ false)
unfolding is_first
is_first-some b k p h e =
    let h' : (ltb p 8 && (bit b p && (not (ltb k p) || not (bit b k)))) ≡ true =
      rw (e, is_first) at h in
    (ground arith, ground arith, λ lt. ground arith)

-- For a byte that is not 0 the inner loop of `bitmap_alloc` finds the leftmost bit that is set.
pub first_bit_lem :
    (b : ℕ)
    → b < 256
    → b ≢ 0
    → (p : ℕ) × (first_bit 8 0 b ≡ some p)
      × (p < 8)
      × (bit b p ≡ true)
      × ((k : ℕ) → k < p → bit b k ≡ false)
first_bit_lem b hb ne = by_case (first_bit 8 0 b) refl
  where
    at : (k : ℕ) → k < 8 → is_first b k ≡ true
    at k hk =
        at_below (is_first b) 8 k hk
          (at_below (λ b. all_below 8 λ k. is_first b k) 256 b hb first_table)

    by_case :
        (o : Option ℕ)
        → first_bit 8 0 b ≡ o
        → (p : ℕ) × (first_bit 8 0 b ≡ some p)
          × (p < 8)
          × (bit b p ≡ true)
          × ((k : ℕ) → k < p → bit b k ≡ false)
    by_case none e = absurd (ne (is_first-none b 0 (at 0 (omega arith)) e))
    by_case (some p) e =
        let (small, set, _) = is_first-some b 0 p (at 0 (omega arith)) e in
        (p, e, small, set, λ k lt. (is_first-some b k p (at k (omega arith)) e).2 lt)
