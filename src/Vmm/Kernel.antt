-- ===== src/Vmm/Kernel.antt =====
-- Kernel pages that are mapped and released.
use bhos.Common.{
  ℕ, ◌+◌, ◌*◌, ◌/◌, ◌%◌, ◌^◌, ◌<◌, ◌≤◌, ◌≡◌, ◌≢◌, refl, ap, ◌∙◌, arith, true, false, bit_and,
  bit_and_low, bit_and_high, ◌==◌, if◌then◌else◌, update, ok, fault, Returns, Bool-cases, inl, inr,
  ltb,
}
use bhos.Bitmap.{Bitmap, return_erro, bitmap_alloc_one_page, bitmap_release_one_page}
use bhos.Bitmap.One.{
  mask_page, IsWellPlaced, AreBytes, Allocates, is_free, number_of, page_base, manages,
  bitmap_alloc_one_page-free, bitmap_release_one_page-alloc, bitmap_release_one_page-free,
}
use bhos.Pmm.{Pmm, Alloc}
use bhos.Pmm.Request.{pmm_alloc_one_page}
use bhos.Vmm.{
  Vmm, get_pte, get_pde, vmm_v2p, descriptor, set_present, mapped, map_page,
  vmm_kern_alloc_one_page, kern_vmm_alloc_erro, vmm_kern_release_one_page,
}
use bhos.Vmm.Address.{get_pte-get_pte, present_test-true, vmm_v2p_lem}

-- The last 4 MB: its entries are those of the directory, and a change of one moves what the other words of
-- the tables stand for.
abbrev pub self_map : ℕ
self_map = 0xFFC0_0000

abbrev pub AreWords : (ℕ → ℕ) → Type 0
AreWords words = (a : ℕ) → words a < 2 ^ 32

pub descriptor_lem : (addr : ℕ) → addr < 2 ^ 32 → descriptor addr ≡ addr / 4096 * 4096 + 0x103
unfolding descriptor
descriptor_lem addr h = rw (mask_page addr h) (omega arith)

-- The translation after the page-table entry of `target` is written.
pub vmm_v2p-update :
    (words : ℕ → ℕ) (target word v : ℕ)
    → AreWords words
    → target < 2 ^ 32
    → v < 2 ^ 32
    → word < 2 ^ 32
    → vmm_v2p (update words (get_pte target) word) v
      ≡ (if v / 4096 == target / 4096 then word / 4096 * 4096 + v % 4096 else vmm_v2p words v)
vmm_v2p-update words target word v aw ht hv hw =
    let same = (get_pte-get_pte target v ht hv).4 in
    let after =
      vmm_v2p_lem (update words (get_pte target) word) v hv (ground (arith, aw (get_pte v))) in
    after ∙ rw (vmm_v2p_lem words v hv (aw (get_pte v))) (ground (arith, same))

set_present_lem : (words : ℕ → ℕ) (pde : ℕ) → set_present words pde ≡ words
unfolding set_present
set_present_lem words pde = rw (present_test-true (words pde)) refl

module _ (pool : Bitmap) (s : Vmm) where
  map_page-given :
      (target : ℕ) (a : Alloc) (pm : Pmm)
      → pmm_alloc_one_page s.pmm ≡ ok (a, pm)
      → map_page pool target s ≡ ok (mapped pool target s.words s.memory (a, pm))
  unfolding map_page
  map_page-given target a pm given =
      (λ j. elim (given j) [
        | fault e ↦ fault e
        | ok r ↦ ok (mapped pool target (set_present s.words (get_pde target)) s.memory r)
      ])
      ∙ ap (λ (words : ℕ → ℕ). ok (mapped pool target words s.memory (a, pm)))
          (set_present_lem s.words (get_pde target))

  -- The page that the physical manager gives is where the kernel page `target` then leads.
  pub map_page-some :
      (target : ℕ) (a : Alloc) (pm : Pmm)
      → pmm_alloc_one_page s.pmm ≡ ok (a, pm)
      → (a.state == 0) ≡ false
      → map_page pool target s
        ≡ ok (
          target,
          record {
            words = update s.words (get_pte target) (descriptor a.addr);
            memory = s.memory;
            pmm = pm;
          },
        )
  unfolding mapped
  map_page-some target a pm given some_page =
      map_page-given target a pm given ∙ rw (mapped, some_page) refl

  pub map_page-none :
      (target : ℕ) (a : Alloc) (pm : Pmm)
      → pmm_alloc_one_page s.pmm ≡ ok (a, pm)
      → (a.state == 0) ≡ true
      → map_page pool target s
        ≡ ok (
          kern_vmm_alloc_erro,
          record {
            words = s.words;
            memory = bitmap_release_one_page pool target s.memory;
            pmm = pm;
          },
        )
  unfolding mapped
  map_page-none target a pm given no_page =
      map_page-given target a pm given ∙ rw (mapped, no_page) refl

module _ (pool : Bitmap) (w : IsWellPlaced pool) (s : Vmm) (bytes : AreBytes s.memory) (target : ℕ)
    (lt : target < 2 ^ 32) (inside : manages pool target ≡ true)
    (free : is_free pool s.memory (number_of pool target) ≡ true) (a : Alloc) (pm : Pmm)
    (given : pmm_alloc_one_page s.pmm ≡ ok (a, pm)) where
  abbrev taken : Vmm
  taken = record s { memory = (bitmap_alloc_one_page pool target s.memory).1 }

  start : vmm_kern_alloc_one_page pool target s ≡ map_page pool target taken
  unfolding vmm_kern_alloc_one_page
  start =
      let (got, _, _) = bitmap_alloc_one_page-free pool w s.memory bytes target lt inside free in
      let fine : ((bitmap_alloc_one_page pool target s.memory).0 == return_erro) ≡ false =
        rw got (ground arith) in
      rw (vmm_kern_alloc_one_page, fine) refl

  -- `vmm_kern_alloc_one_page` of a free page of the pool below the last 4 MB, where the tables show
  -- themselves, when the physical manager has a page: the call returns `target`, from then on the addresses of the page translate into the physical page,
  -- all other addresses translate as before, and of the pool that page alone is taken.
  pub vmm_kern_alloc_one_page-some :
      AreWords s.words
      → target < self_map
      → (a.state == 0) ≡ false
      → a.addr < 2 ^ 32
      → Returns
          (λ r t.
            (r ≡ target)
            × ((v : ℕ)
                → v < 2 ^ 32
                → vmm_v2p t.words v ≡ (
                    if v / 4096 == target / 4096
                    then a.addr / 4096 * 4096 + v % 4096
                    else vmm_v2p s.words v))
            × Allocates pool target s.memory (page_base target, t.memory)
            × (t.pmm ≡ pm))
          (vmm_kern_alloc_one_page pool target s)
  vmm_kern_alloc_one_page-some aw below some_page ha =
      let (_, bytes', after) =
        bitmap_alloc_one_page-free pool w s.memory bytes target lt inside free in
      let frame = descriptor_lem a.addr ha in
      (
        target,
        record {
          words = update s.words (get_pte target) (descriptor a.addr);
          memory = taken.memory;
          pmm = pm;
        },
        start ∙ map_page-some pool taken target a pm given some_page,
        (
          refl,
          (λ v hv.
              vmm_v2p-update s.words target (descriptor a.addr) v aw lt hv
                (omega (arith, frame, below))
              ∙ rw frame (ground arith)),
          (refl, bytes', after),
          refl,
        ),
      )

  -- When the physical manager has no page, the call returns the error value; every page translates as
  -- before and every page of the pool is as free as before.
  pub vmm_kern_alloc_one_page-none :
      (a.state == 0) ≡ true
      → Returns
          (λ r t.
            (r ≡ kern_vmm_alloc_erro)
            × (t.words ≡ s.words)
            × ((k : ℕ) → k < pool.length * 8 → is_free pool t.memory k ≡ is_free pool s.memory k)
            × (t.pmm ≡ pm))
          (vmm_kern_alloc_one_page pool target s)
  vmm_kern_alloc_one_page-none no_page = (
    kern_vmm_alloc_erro,
    record { words = s.words; memory = bitmap_release_one_page pool target taken.memory; pmm = pm },
    start ∙ map_page-none pool taken target a pm given no_page,
    (
      refl,
      refl,
      (λ k hk. bitmap_release_one_page-alloc pool w s.memory target k bytes lt inside free hk),
      refl,
    ),
  )

clear_p : (word : ℕ) → word < 2 ^ 32 → bit_and word 0xFFFF_FFFE ≡ word / 2 * 2
clear_p word h = omega (arith, bit_and_high 1 word 0x7FFF_FFFF, bit_and_low 31 (word / 2))

-- A page keeps its frame when the lowest bit of its entry is cleared.
kept :
    (words : ℕ → ℕ) (target v : ℕ)
    → AreWords words
    → target < 2 ^ 32
    → v < 2 ^ 32
    → (if v / 4096 == target / 4096
        then words (get_pte target) / 2 * 2 / 4096 * 4096 + v % 4096
        else vmm_v2p words v)
      ≡ vmm_v2p words v
kept words target v aw ht hv = elim (Bool-cases (v / 4096 == target / 4096)) [
  | inl e ↦
      let entry : get_pte target ≡ get_pte v = ground (arith, (get_pte-get_pte target v ht hv).4) in
      rw (e, entry, vmm_v2p_lem words v hv (aw (get_pte v))) (omega arith)
  | inr e ↦ rw e refl
]

-- `vmm_kern_release_one_page` of a kernel page of the pool, below the last 4 MB, where the tables show
-- themselves, clears the P bit of its entry, leaves every
-- other word, makes the page alone free again and leaves the physical manager; every address
-- translates as before, those of the released page too.
pub vmm_kern_release_one_page_lem :
    (pool : Bitmap) (w : IsWellPlaced pool) (s : Vmm)
    → AreBytes s.memory
    → AreWords s.words
    → (target : ℕ) → 0xC000_0000 ≤ target
    → target < self_map
    → manages pool target ≡ true
    → let t = vmm_kern_release_one_page pool target s in
      (t.words (get_pte target) % 2 ≡ 0)
      × ((b : ℕ) → b ≢ get_pte target → t.words b ≡ s.words b)
      × ((k : ℕ)
          → k < pool.length * 8
          → is_free pool t.memory k
            ≡ (if number_of pool target == k then true else is_free pool s.memory k))
      × (t.pmm ≡ s.pmm)
      × ((v : ℕ) → v < 2 ^ 32 → vmm_v2p t.words v ≡ vmm_v2p s.words v)
unfolding vmm_kern_release_one_page
vmm_kern_release_one_page_lem pool w s bytes aw target ge below inside =
    let lt : target < 2 ^ 32 = omega (arith, below) in
    let high : ltb target 0xC000_0000 ≡ false = ground arith in
    let word = s.words (get_pte target) in
    let clear = clear_p word (aw (get_pte target)) in
    let freed = bitmap_release_one_page-free pool w s.memory bytes target lt inside in
    let moved = λ (v : ℕ) (hv : v < 2 ^ 32).
      vmm_v2p-update s.words target (word / 2 * 2) v aw lt hv
        (omega (arith, aw (get_pte target))) in
    let same = λ (v : ℕ) (hv : v < 2 ^ 32). moved v hv ∙ kept s.words target v aw lt hv in
    rw (high, clear) (ground arith, (λ b ne. ground arith), freed.1, refl, same)
