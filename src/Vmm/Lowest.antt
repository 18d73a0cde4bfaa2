-- ===== src/Vmm/Lowest.antt =====
-- `vmm_kern_alloc` takes the lowest free page of the kernel's pool.
use bhos.Common.{
  ℕ, ◌+◌, ◌*◌, ◌/◌, ◌%◌, ◌^◌, ◌<◌, ◌≡◌, refl, ◌∙◌, arith, true, false, ◌==◌, if◌then◌else◌, update,
  ok, Returns, inl, inr,
}
use bhos.Bitmap.{Bitmap, return_erro, bitmap_alloc}
use bhos.Bitmap.One.{IsWellPlaced, AreBytes, is_free}
use bhos.Bitmap.Scan.{Takes, bitmap_alloc_lem}
use bhos.Pmm.{Pmm, Alloc}
use bhos.Pmm.Request.{pmm_alloc_one_page}
use bhos.Vmm.{Vmm, get_pte, vmm_v2p, descriptor, map_page, vmm_kern_alloc, kern_vmm_alloc_erro}
use bhos.Vmm.Kernel.{AreWords, descriptor_lem, vmm_v2p-update, map_page-some, map_page-none}

module _ (pool : Bitmap) (w : IsWellPlaced pool) (s : Vmm) (bytes : AreBytes s.memory) where
  lowest :
      (k : ℕ)
      → k < pool.length * 8
      → is_free pool s.memory k ≡ true
      → (n : ℕ) × Takes pool s.memory (bitmap_alloc pool s.memory) n
  lowest k h free = elim (bitmap_alloc_lem pool w s.memory bytes) [
    | inl nothing ↦ absurd (ground (arith, nothing.0 k h))
    | inr found ↦ found
  ]

  alloc_run :
      ((bitmap_alloc pool s.memory).0 == return_erro) ≡ false
      → vmm_kern_alloc pool s
        ≡ map_page pool
            (bitmap_alloc pool s.memory).0
            (record s { memory = (bitmap_alloc pool s.memory).1 })
  unfolding vmm_kern_alloc
  alloc_run fine = rw (vmm_kern_alloc, fine) refl

  module _ (k : ℕ) (h : k < pool.length * 8) (free : is_free pool s.memory k ≡ true) (a : Alloc)
      (pm : Pmm) (given : pmm_alloc_one_page s.pmm ≡ ok (a, pm)) where
    -- With a free page in the pool and a physical page, `vmm_kern_alloc` returns the first address of the
    -- lowest free page, which then leads to the physical page; nothing else changes.
    pub vmm_kern_alloc-Takes :
        AreWords s.words
        → (a.state == 0) ≡ false
        → a.addr < 2 ^ 32
        → Returns
            (λ r t.
              ((n : ℕ) × Takes pool s.memory (r, t.memory) n)
              × (r < 2 ^ 32)
              × ((r == kern_vmm_alloc_erro) ≡ false)
              × ((v : ℕ)
                  → v < 2 ^ 32
                  → vmm_v2p t.words v ≡ (
                      if v / 4096 == r / 4096
                      then a.addr / 4096 * 4096 + v % 4096
                      else vmm_v2p s.words v))
              × (t.pmm ≡ pm))
            (vmm_kern_alloc pool s)
    vmm_kern_alloc-Takes aw some_page ha =
        let (n, takes) = lowest k h free in
        let r = (bitmap_alloc pool s.memory).0 in
        let t : Vmm = record s { memory = (bitmap_alloc pool s.memory).1 } in
        let (inside, _, _, at, _, _) = takes in
        let small : r < 2 ^ 32 = omega (arith, at, inside, w) in
        let fine : (r == return_erro) ≡ false = ground (arith, at, inside, w) in
        let frame = descriptor_lem a.addr ha in
        (
          r,
          record t { words = update s.words (get_pte r) (descriptor a.addr); pmm = pm },
          alloc_run fine ∙ map_page-some pool t r a pm given some_page,
          (
            (n, takes),
            small,
            fine,
            (λ v hv.
                vmm_v2p-update s.words r (descriptor a.addr) v aw small hv (omega (arith, frame))
                ∙ rw frame (ground arith)),
            refl,
          ),
        )

    -- Without a physical page the call returns the error value.
    pub vmm_kern_alloc-none :
        (a.state == 0) ≡ true
        → Returns (λ r t. (r ≡ kern_vmm_alloc_erro) × (t.words ≡ s.words)) (vmm_kern_alloc pool s)
    vmm_kern_alloc-none no_page =
        let (n, takes) = lowest k h free in
        let r = (bitmap_alloc pool s.memory).0 in
        let t : Vmm = record s { memory = (bitmap_alloc pool s.memory).1 } in
        let (inside, _, _, at, _, _) = takes in
        let fine : (r == return_erro) ≡ false = ground (arith, at, inside, w) in
        (
          kern_vmm_alloc_erro,
          _,
          alloc_run fine ∙ map_page-none pool t r a pm given no_page,
          (refl, refl),
        )
