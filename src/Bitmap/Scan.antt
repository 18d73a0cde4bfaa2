-- ===== src/Bitmap/Scan.antt =====
-- `bitmap_alloc` takes the lowest free page.
use native.Mathlib.Nat.{zero-div}
use bhos.Common.{
  ℕ, zero, suc, ◌+◌, ◌-◌, ◌*◌, ◌/◌, ◌%◌, ◌^◌, ◌<◌, ◌≡◌, refl, true, false, arith, ltb, ◌==◌,
  if◌then◌else◌, update, u32, Bool-cases, inl, inr, ==→eq, ◌⊎◌,
}
use bhos.Bitmap.{
  Memory, Bitmap, return_erro, page_size, byte_addr, byte_mask, bitmap_scan, bitmap_alloc,
}
use bhos.Bitmap.Bits.{bit, bit-clear, first_bit_lem}
use bhos.Bitmap.One.{IsWellPlaced, AreBytes, is_free, is_free-write}

-- No managed page is free: the call returns the error value and memory stays.
abbrev pub NoneFree : Bitmap → Memory → ℕ × Memory → Type 0
NoneFree bm m out =
    ((k : ℕ) → k < bm.length * 8 → is_free bm m k ≡ false) × (out ≡ (return_erro, m))

-- Page `n` is the lowest free page: the call returns its first address and takes that page alone.
abbrev pub Takes : Bitmap → Memory → ℕ × Memory → ℕ → Type 0
Takes bm m (r, m') n =
    (n < bm.length * 8)
    × (is_free bm m n ≡ true)
    × ((k : ℕ) → k < n → is_free bm m k ≡ false)
    × (r ≡ bm.target_addr_header + n * 4096)
    × AreBytes m'
    × ((k : ℕ) → k < bm.length * 8 → is_free bm m' k ≡ (if n == k then false else is_free bm m k))

pub bit-zero : (j : ℕ) → bit 0 j ≡ false
unfolding bit
bit-zero j = let half : 0 / 2 ^ (7 - j) ≡ 0 = zero-div (2 ^ (7 - j)) in rw half

module _ (bm : Bitmap) (w : IsWellPlaced bm) (m : Memory) (bytes : AreBytes m) where
  -- The page of the leftmost bit of the first byte that is not 0 is the lowest free page.
  take_first :
      (i pos : ℕ)
      → i < bm.length
      → pos < 8
      → bit (m (byte_addr bm i)) pos ≡ true
      → ((k : ℕ) → k < pos → bit (m (byte_addr bm i)) k ≡ false)
      → ((k : ℕ) → k < i * 8 → is_free bm m k ≡ false)
      → Takes bm m
          (
            u32 (u32 ((i * 8 + pos) * page_size) + bm.target_addr_header),
            update m (byte_addr bm i) ((m (byte_addr bm i) + 2 ^ 8 - byte_mask pos) % 2 ^ 8),
          )
          (i * 8 + pos)
  take_first i pos hi small set before low =
      let n : ℕ = i * 8 + pos in
      let row : n / 8 ≡ i = omega arith in
      let col : n % 8 ≡ pos = omega arith in
      let v : ℕ = (m (byte_addr bm i) + 2 ^ 8 - byte_mask pos) % 2 ^ 8 in
      (
        omega arith,
        rw (row, col) set,
        (λ k lt. elim (Bool-cases (ltb k (i * 8))) [
          | inl old ↦ low k (ground arith)
          | inr here ↦
              let p : k / 8 ≡ i = ground arith in
              let q : k % 8 < pos = ground arith in rw p (before (k % 8) q)
        ]),
        omega arith,
        (λ a. ground (arith, bytes a)),
        λ k hk. rw row at (
            is_free-write bm w m n k v false (omega arith) hk (
              rw (row, col)
                (bit-clear (m (byte_addr bm i)) pos (k % 8) (bytes _) small (omega arith) set))),
      )

  bitmap_scan_lem :
      (rounds i : ℕ)
      → rounds + i ≡ bm.length
      → ((k : ℕ) → k < i * 8 → is_free bm m k ≡ false)
      → NoneFree bm m (bitmap_scan bm rounds i m)
        ⊎ ((n : ℕ) × Takes bm m (bitmap_scan bm rounds i m) n)
  unfolding bitmap_scan
  bitmap_scan_lem zero i e low = inl ((λ k lt. low k (omega arith)), refl)
  bitmap_scan_lem (suc rounds) i e low = elim (Bool-cases (m (byte_addr bm i) == 0)) [
    | inl empty ↦
        let p : m (byte_addr bm i) ≡ 0 = ==→eq _ _ empty in
        rw empty (
          bitmap_scan_lem rounds (i + 1) (omega arith) (λ k lt. elim (Bool-cases (ltb k (i * 8))) [
            | inl old ↦ low k (ground arith)
            | inr here ↦ let q : k / 8 ≡ i = ground arith in rw (q, p) (bit-zero (k % 8))
          ]))
    | inr some_free ↦
        let (pos, found, small, set, before) =
          first_bit_lem (m (byte_addr bm i)) (bytes _) (ground arith) in
        rw (some_free, found)
          (inr (i * 8 + pos, take_first i pos (omega arith) small set before low))
  ]

  -- Either no managed page is free, and the call returns the error value and leaves memory; or the call
  -- returns the first address of the lowest free page, which alone is taken.
  pub bitmap_alloc_lem :
      NoneFree bm m (bitmap_alloc bm m) ⊎ ((n : ℕ) × Takes bm m (bitmap_alloc bm m) n)
  unfolding bitmap_alloc
  bitmap_alloc_lem = bitmap_scan_lem bm.length 0 (omega arith) (λ k lt. absurd (omega arith))
