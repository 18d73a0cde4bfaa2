-- ===== src/Pmm/Request/Class.antt =====
-- The block class of a request.
use bhos.Common.{
  ℕ, ◌*◌, ◌^◌, ◌≤◌, ◌<◌, ◌≡◌, refl, Bool, true, ◌&&◌, ◌||◌, arith, ltb, leb, ◌==◌, all_below,
  at_below,
}
use bhos.Pmm.Request.{class_of}

fits : ℕ → Bool
fits n = n == 0 || (leb (class_of n) 10 && (leb n (2 ^ class_of n) && ltb (2 ^ class_of n) (2 * n)))

fits_table : all_below 1025 fits ≡ true
unfolding all_below fits class_of
fits_table = refl

-- For a request of 1 to 1024 pages the class is one of the block classes, its block holds the
-- request, and a block of half the size would not.
pub class_of-least :
    (n : ℕ) → 0 < n → n ≤ 1024 → (class_of n ≤ 10) × (n ≤ 2 ^ class_of n) × (2 ^ class_of n < 2 * n)
unfolding fits
class_of-least n pos le = ground (arith, at_below fits 1025 n (omega arith) fits_table)
