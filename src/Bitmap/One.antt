-- ===== src/Bitmap/One.antt =====
-- Allocation and release of a given page.
use bhos.Common.{
  ℕ, ◌+◌, ◌-◌, ◌*◌, ◌/◌, ◌%◌, ◌^◌, ◌≤◌, ◌<◌, ◌≡◌, refl, sym, ◌∙◌, Bool, true, false, ◌&&◌, arith,
  ltb, leb, ◌==◌, if◌then◌else◌, bit_and, bit_or, update, bit_and_low, bit_and_high, ==→eq,
  Bool-cases, inl, inr,
}
use bhos.Bitmap.{
  Memory, Bitmap, return_erro, in_range, page_num, byte_addr, byte_mask, bitmap_alloc_one_page,
  bitmap_release_one_page,
}
use bhos.Bitmap.Bits.{bit, bit-clear, bit-set}

-- A bitmap whose bytes and whose pages both lie inside the address space.
pub record IsWellPlaced (bm : Bitmap) : Type 0 where
  pub nonempty : 0 < bm.length
  pub aligned : bm.target_addr_header % 4096 ≡ 0
  pub pages : bm.target_addr_header + bm.length * 32768 ≤ 2 ^ 32
  pub bytes : bm.vaddr_header + bm.length ≤ 2 ^ 32

abbrev pub AreBytes : Memory → Type 0
AreBytes m = (a : ℕ) → m a < 256

-- Whether page number `n` is free.
abbrev pub is_free : Bitmap → Memory → ℕ → Bool
is_free bm m n = bit (m (byte_addr bm (n / 8))) (n % 8)

-- The first address of the page of an address.
abbrev pub page_base : ℕ → ℕ
page_base target = target / 4096 * 4096

-- The page base lies among the managed pages.
abbrev pub manages : Bitmap → ℕ → Bool
manages bm target =
    leb bm.target_addr_header target && ltb target (bm.target_addr_header + bm.length * 32768)

abbrev pub number_of : Bitmap → ℕ → ℕ
number_of bm target = (page_base target - bm.target_addr_header) / 4096

-- `out` is the first address of the page of `target` and a memory of bytes in which that page is
-- taken and every other managed page is as free as in `m`.
abbrev pub Allocates : Bitmap → ℕ → Memory → ℕ × Memory → Type 0
Allocates bm target m out =
    (out.0 ≡ page_base target)
    × AreBytes out.1
    × ((k : ℕ)
        → k < bm.length * 8
        → is_free bm out.1 k ≡ (if number_of bm target == k then false else is_free bm m k))

pub mask_page : (target : ℕ) → target < 2 ^ 32 → bit_and target 0xFFFF_F000 ≡ page_base target
mask_page target lt = omega (arith, bit_and_high 12 target 0xFFFFF, bit_and_low 20 (target / 4096))

module _ (bm : Bitmap) (w : IsWellPlaced bm) where
  pub in_range-manages :
      (target : ℕ) → target < 2 ^ 32 → in_range bm (page_base target) ≡ manages bm target
  unfolding in_range
  in_range-manages target lt = ground arith

  pub page_num-number_of :
      (target : ℕ)
      → target < 2 ^ 32
      → manages bm target ≡ true
      → (page_num bm (page_base target) ≡ number_of bm target)
        × (number_of bm target < bm.length * 8)
  unfolding page_num
  page_num-number_of target lt h = ground arith

  -- Different pages have different bits.
  pub is_free-update :
      (m : Memory) (n k v : ℕ)
      → n < bm.length * 8
      → k < bm.length * 8
      → is_free bm (update m (byte_addr bm (n / 8)) v) k
        ≡ (if n / 8 == k / 8 then bit v (k % 8) else is_free bm m k)
  is_free-update m n k v hn hk =
      let same : (byte_addr bm (n / 8) == byte_addr bm (k / 8)) ≡ (n / 8 == k / 8) = ground arith in
      elim (Bool-cases (n / 8 == k / 8)) [ inl e ↦ rw (same, e) | inr e ↦ rw (same, e) ]

  -- A write of a byte that changes the bit of page `n` alone changes whether page `n` is free.
  pub is_free-write :
      (m : Memory) (n k v : ℕ) (b : Bool)
      → n < bm.length * 8
      → k < bm.length * 8
      → bit v (k % 8) ≡ (if n % 8 == k % 8 then b else bit (m (byte_addr bm (n / 8))) (k % 8))
      → is_free bm (update m (byte_addr bm (n / 8)) v) k ≡ (if n == k then b else is_free bm m k)
  is_free-write m n k v b hn hk bits = elim (Bool-cases (n / 8 == k / 8)) [
    | inl e ↦
        let p : n / 8 ≡ k / 8 = ==→eq _ _ e in
        let q : (n % 8 == k % 8) ≡ (n == k) = ground arith in
        is_free-update m n k v hn hk ∙ rw (e, bits, q, p)
    | inr e ↦ let q : (n == k) ≡ false = ground arith in is_free-update m n k v hn hk ∙ rw (e, q)
  ]

  module _ (m : Memory) (bytes : AreBytes m) (target : ℕ) (lt : target < 2 ^ 32) where
    -- The byte of the page, and the byte with the page's bit cleared or set.
    abbrev addr : ℕ
    addr = byte_addr bm (number_of bm target / 8)

    abbrev cleared : ℕ
    cleared = (m addr + 2 ^ 8 - byte_mask (number_of bm target % 8)) % 2 ^ 8

    abbrev marked : ℕ
    marked = bit_or (m addr) (byte_mask (number_of bm target % 8))

    alloc_inside :
        manages bm target ≡ true
        → bitmap_alloc_one_page bm target m ≡ (
            if is_free bm m (number_of bm target)
            then (page_base target, update m addr cleared)
            else (return_erro, m))
    unfolding bitmap_alloc_one_page
    alloc_inside inside =
        let same =
          bit-set (m addr) (number_of bm target % 8) 0 (bytes addr) (omega arith) (omega arith) in
        let num = (page_num-number_of target lt inside).0 in
        rw (mask_page target lt, in_range-manages target lt, inside, num, same.1)

    release_inside :
        manages bm target ≡ true → bitmap_release_one_page bm target m ≡ update m addr marked
    unfolding bitmap_release_one_page
    release_inside inside =
        let num = (page_num-number_of target lt inside).0 in
        rw (mask_page target lt, in_range-manages target lt, inside, num)

    -- A free page among the managed ones is taken: the call returns its first address, that page is
    -- no longer free, and every other page is as free as it was.
    pub bitmap_alloc_one_page-free :
        manages bm target ≡ true
        → is_free bm m (number_of bm target) ≡ true
        → Allocates bm target m (bitmap_alloc_one_page bm target m)
    bitmap_alloc_one_page-free inside free =
        let n : ℕ = number_of bm target in
        let run = alloc_inside inside in
        let small = (page_num-number_of target lt inside).1 in
        rw (run, free)
          (
            refl,
            (λ a. ground (arith, bytes a)),
            λ k hk.
                is_free-write m n k cleared false small hk (
                  bit-clear (m addr) (n % 8) (k % 8) (bytes addr) (omega arith) (omega arith) free),
          )

    -- For a page that is taken or not managed the call returns the error value and memory stays.
    pub bitmap_alloc_one_page-taken :
        (manages bm target && is_free bm m (number_of bm target)) ≡ false
        → bitmap_alloc_one_page bm target m ≡ (return_erro, m)
    unfolding bitmap_alloc_one_page
    bitmap_alloc_one_page-taken no_page = elim (Bool-cases (manages bm target)) [
      | inl inside ↦
          let busy : is_free bm m (number_of bm target) ≡ false = rw inside at no_page in
          rw (alloc_inside inside, busy)
      | inr outside ↦ rw (mask_page target lt, in_range-manages target lt, outside)
    ]

    -- Release frees a managed page and leaves every other page as it was.
    pub bitmap_release_one_page-free :
        manages bm target ≡ true
        → AreBytes (bitmap_release_one_page bm target m)
          × ((k : ℕ)
              → k < bm.length * 8
              → is_free bm (bitmap_release_one_page bm target m) k
                ≡ (if number_of bm target == k then true else is_free bm m k))
    bitmap_release_one_page-free inside =
        let n : ℕ = number_of bm target in
        let small = (page_num-number_of target lt inside).1 in
        let fits = bit-set (m addr) (n % 8) 0 (bytes addr) (omega arith) (omega arith) in
        rw (release_inside inside) (
          (λ a. ground (arith, bytes a, fits.0)),
          λ k hk.
              is_free-write m n k marked true small hk
                (bit-set (m addr) (n % 8) (k % 8) (bytes addr) (omega arith) (omega arith)).2,
        )

  -- Taking a free managed page and releasing it again leaves every page as free as it was.
  pub bitmap_release_one_page-alloc :
      (m : Memory) (target k : ℕ)
      → AreBytes m
      → target < 2 ^ 32
      → manages bm target ≡ true
      → is_free bm m (number_of bm target) ≡ true
      → k < bm.length * 8
      → is_free bm (bitmap_release_one_page bm target (bitmap_alloc_one_page bm target m).1) k
        ≡ is_free bm m k
  bitmap_release_one_page-alloc m target k bytes lt inside free hk =
      let n : ℕ = number_of bm target in
      let (_, bytes', after) = bitmap_alloc_one_page-free m bytes target lt inside free in
      let (_, freed) =
        bitmap_release_one_page-free (bitmap_alloc_one_page bm target m).1 bytes' target lt
          inside in
      freed k hk ∙ elim (Bool-cases (n == k)) [
        | inl e ↦ let p : is_free bm m k ≡ true = rw (==→eq n k e) at free in rw e (sym p)
        | inr e ↦ rw e (after k hk ∙ rw e)
      ]
