-- ===== src/Vmm/Init/Pool.antt =====
-- The pool of kernel pages after the set-up.
use bhos.Common.{
  ℕ, zero, suc, ◌+◌, ◌-◌, ◌*◌, ◌/◌, ◌%◌, ◌^◌, ◌<◌, ◌≤◌, ◌≡◌, refl, sym, ◌∙◌, arith, true, false,
  Bool-cases, inl, inr, ltb, leb, ◌&&◌, if◌then◌else◌, u32, sub32, update, Returns, all_below,
  at_below,
}
use bhos.Bitmap.{Memory, Bitmap, memset, bitmap_init_mem, bitmap_alloc}
use bhos.Bitmap.Bits.{bit}
use bhos.Bitmap.One.{IsWellPlaced, AreBytes, is_free}
use bhos.Bitmap.Fill.{memset-bytes}
use bhos.Bitmap.Scan.{bitmap_alloc_lem, bit-zero}
use bhos.Vmm.Init.{get_kern_used_page_count, kern_vmm_pool, alloc_times, clear_down, vmm_kern_init}

clear_down-bytes :
    (n probe : ℕ) (m : Memory) (b : ℕ)
    → n ≤ probe
    → probe < 2 ^ 32
    → clear_down n probe m b ≡ (if ltb (probe - n) b && leb b probe then 0 else m b)
unfolding clear_down
clear_down-bytes zero probe m b h lt = ground arith
clear_down-bytes (suc n) probe m b h lt =
    let on : sub32 probe 1 ≡ probe - 1 = omega arith in
    rw (clear_down, on)
      (clear_down-bytes n (probe - 1) (update m probe 0) b (omega arith) (omega arith)
        ∙ ground arith)

ones_table : all_below 8 (λ j. bit 255 j) ≡ true
unfolding all_below bit
ones_table = refl

bit-ones : (j : ℕ) → j < 8 → bit 255 j ≡ true
bit-ones j h = at_below (λ j. bit 255 j) 8 j h ones_table

-- Of the managed pages those from `n` on are free.
record IsFreeFrom (bm : Bitmap) (n : ℕ) (m : Memory) : Type 0 where
  bytes : AreBytes m
  free : (k : ℕ) → k < bm.length * 8 → is_free bm m k ≡ leb n k

init-IsFreeFrom :
    (bm : Bitmap) (m : Memory)
    → IsWellPlaced bm
    → AreBytes m
    → IsFreeFrom bm 0 (bitmap_init_mem bm m)
unfolding bitmap_init_mem
init-IsFreeFrom bm m w bytes = record {
  bytes = λ a. ground (arith, memset-bytes bm.vaddr_header 255 bm.length m a w.bytes, bytes a);
  free = λ k h.
      let at : u32 (bm.vaddr_header + k / 8) ≡ bm.vaddr_header + k / 8 = omega (arith, w.bytes) in
      let set : memset bm.vaddr_header 255 bm.length m (bm.vaddr_header + k / 8) ≡ 255 =
        memset-bytes bm.vaddr_header 255 bm.length m (bm.vaddr_header + k / 8) w.bytes
        ∙ ground arith in
      rw (at, set) (bit-ones (k % 8) (omega arith) ∙ ground arith);
}

-- One page more is taken, the lowest one.
alloc-IsFreeFrom :
    (bm : Bitmap) (n : ℕ) (m : Memory)
    → IsWellPlaced bm
    → IsFreeFrom bm n m
    → n < bm.length * 8
    → IsFreeFrom bm (suc n) (bitmap_alloc bm m).1
alloc-IsFreeFrom bm n m w i h = elim (bitmap_alloc_lem bm w m i.bytes) [
  | inl none_free ↦ absurd (ground (arith, none_free.0 n h, i.free n h))
  | inr (p, (inside, free, before, _, bytes, after)) ↦
      let least : p ≡ n = omega (arith, ge p (sym (i.free p inside) ∙ free), not_above p before) in
      record { bytes = bytes; free = λ k hk. ground (arith, after k hk, i.free k hk, least) }
]
  where
    ge : (p : ℕ) → leb n p ≡ true → n ≤ p
    ge p e = ground arith

    not_above : (p : ℕ) → ((k : ℕ) → k < p → is_free bm m k ≡ false) → p ≤ n
    not_above p before = elim (Bool-cases (ltb n p)) [
      | inl e ↦ absurd (ground (arith, before n (ground arith), i.free n h))
      | inr e ↦ ground arith
    ]

alloc_times-IsFreeFrom :
    (bm : Bitmap) (n used : ℕ) (m : Memory)
    → IsWellPlaced bm
    → IsFreeFrom bm n m
    → n + used ≤ bm.length * 8
    → IsFreeFrom bm (n + used) (alloc_times bm used m)
unfolding alloc_times
alloc_times-IsFreeFrom bm n zero m w i h = let at : n + 0 ≡ n = omega arith in rw at i
alloc_times-IsFreeFrom bm n (suc used) m w i h =
    let at : n + suc used ≡ suc n + used = omega arith in
    rw at (
      alloc_times-IsFreeFrom bm (suc n) used (bitmap_alloc bm m).1 w
        (alloc-IsFreeFrom bm n m w i (omega arith)) (omega arith))

IsFreeFrom-zero : (bm : Bitmap) (n : ℕ) (m : Memory) → IsFreeFrom bm (0 + n) m → IsFreeFrom bm n m
IsFreeFrom-zero bm n m i = let at : 0 + n ≡ n = omega arith in rw at at i

-- The last `n * 8` pages are taken by clearing the last `n` bytes.
clear-is_free :
    (bm : Bitmap) (used n : ℕ) (m : Memory) (k : ℕ)
    → IsWellPlaced bm
    → IsFreeFrom bm used m
    → n < bm.length
    → k < bm.length * 8
    → is_free bm (clear_down n (bm.vaddr_header + bm.length - 1) m) k
      ≡ (leb used k && ltb k (bm.length * 8 - n * 8))
clear-is_free bm used n m k w i hn h =
    let at : u32 (bm.vaddr_header + k / 8) ≡ bm.vaddr_header + k / 8 = omega (arith, w.bytes) in
    let byte =
      clear_down-bytes n (bm.vaddr_header + bm.length - 1) m (bm.vaddr_header + k / 8) (omega arith)
        (omega (arith, w.bytes)) in
    elim (Bool-cases (ltb k (bm.length * 8 - n * 8))) [
      | inl e ↦
          let same : clear_down n (bm.vaddr_header + bm.length - 1) m (bm.vaddr_header + k / 8)
              ≡ m (bm.vaddr_header + k / 8) =
            byte ∙ ground arith in
          let old : bit (m (bm.vaddr_header + k / 8)) (k % 8) ≡ leb used k =
            rw at at (i.free k h) in
          rw (at, same, old, e) (ground arith)
      | inr e ↦
          let gone : clear_down n (bm.vaddr_header + bm.length - 1) m (bm.vaddr_header + k / 8)
              ≡ 0 =
            byte ∙ ground arith in
          rw (at, gone, e) (bit-zero (k % 8) ∙ ground arith)
    ]

-- The pool that `vmm_kern_init` leaves.
pub vmm_kern_init-pool :
    (kern_bitmap kern_end : ℕ) (m : Memory)
    → kern_bitmap + 0x8000 ≤ 2 ^ 32
    → AreBytes m
    → get_kern_used_page_count kern_end ≤ 1024
    → Returns
        (λ _ t.
          AreBytes t
          × ((k : ℕ)
              → k < 0x4_0000
              → is_free (kern_vmm_pool kern_bitmap) t k
                ≡ (leb (get_kern_used_page_count kern_end) k && ltb k (0x4_0000 - 1024))))
        (vmm_kern_init kern_bitmap kern_end m)
unfolding vmm_kern_init
vmm_kern_init-pool kern_bitmap kern_end m placed bytes few =
    let pool = kern_vmm_pool kern_bitmap in
    let used = get_kern_used_page_count kern_end in
    let w : IsWellPlaced pool = record {
      nonempty = omega arith;
      aligned = omega arith;
      pages = omega arith;
      bytes = placed;
    } in
    let fits : ltb 1024 used ≡ false = ground arith in
    let last : u32 (kern_bitmap + 0x8000 - 1) ≡ kern_bitmap + 0x8000 - 1 = omega arith in
    let i = IsFreeFrom-zero pool used (alloc_times pool used (bitmap_init_mem pool m)) (
      alloc_times-IsFreeFrom pool 0 used (bitmap_init_mem pool m) w (init-IsFreeFrom pool m w bytes)
        (omega arith)) in
    let filled = alloc_times pool used (bitmap_init_mem pool m) in
    (
      tt,
      clear_down 128 (kern_bitmap + 0x8000 - 1) filled,
      rw (fits, last) refl,
      (
        (λ a. ground (arith, clear_down-bytes 128 (kern_bitmap + 0x8000 - 1) filled a, i.bytes a)),
        (λ k h. clear-is_free pool used 128 filled k w i (omega arith) h),
      ),
    )

-- After `vmm_kern_init`, for a kernel of at most 1024 pages and a bitmap inside the address space, the pages
-- of the kernel and the last 1024 pages of the 1 GB pool are taken and all others are free. The call ends.
pub vmm_kern_init-is_free :
    (kern_bitmap kern_end k : ℕ) (m : Memory)
    → kern_bitmap + 0x8000 ≤ 2 ^ 32
    → AreBytes m
    → get_kern_used_page_count kern_end ≤ 1024
    → k < 0x4_0000
    → Returns
        (λ _ t.
          is_free (kern_vmm_pool kern_bitmap) t k
          ≡ (leb (get_kern_used_page_count kern_end) k && ltb k (0x4_0000 - 1024)))
        (vmm_kern_init kern_bitmap kern_end m)
vmm_kern_init-is_free kern_bitmap kern_end k m placed bytes few h =
    let (_, t, run, (_, pages)) = vmm_kern_init-pool kern_bitmap kern_end m placed bytes few in
    (tt, t, run, pages k h)
