-- ===== src/Tests/VmmTests.antt =====
-- Kernel virtual memory, kernel/modules/vmm/vmm.c, with a pool of sixteen free pages at 0xC000_0000 and
-- a page manager that has the single page 40, or none.
use bhos.Common.{
  ℕ, ◌+◌, ◌*◌, ◌/◌, ◌%◌, ◌^◌, ◌<◌, ◌≤◌, ◌≡◌, ◌≢◌, refl, arith, true, none, some, ◌==◌,
  if◌then◌else◌, Returns, ok,
}
use bhos.Bitmap.{Memory, Bitmap}
use bhos.Bitmap.Bits.{bit}
use bhos.Bitmap.One.{IsWellPlaced, AreBytes, Allocates, is_free, number_of}
use bhos.Pmm.{Pmm, pop_block, page_no_to_addr}
use bhos.Pmm.Request.{
  bit_count, class_of, find_class, finish_alloc, pmm_alloc_pages, pmm_alloc_one_page, one_page,
  failed,
}
use bhos.Vmm.{Vmm, get_pte, get_pde, vmm_v2p, vmm_kern_alloc_one_page, vmm_kern_release_one_page}
use bhos.Vmm.Address.{get_pte-get_pte}
use bhos.Vmm.Kernel.{vmm_kern_alloc_one_page-some, vmm_kern_release_one_page_lem}

abbrev pub pool : Bitmap
pool = record { vaddr_header = 0x500; length = 2; target_addr_header = 0xC000_0000 }

pub pool-IsWellPlaced : IsWellPlaced pool
pool-IsWellPlaced = omega arith

abbrev pub memory : Memory
memory _ = 0xFF

pub memory-AreBytes : AreBytes memory
memory-AreBytes a = omega arith

abbrev pub empty : Pmm
empty = record {
  next = λ _. none;
  heads = λ _. none;
  single = none;
  page_start = 0x10_0000;
  max_page_no = 50;
  single_first = 40;
}

abbrev pub with_page : Pmm
with_page = record empty { single = some 40 }

abbrev pub tables : ℕ → ℕ
tables _ = 0x20_0107

abbrev pub machine : Pmm → Vmm
machine pmm = record { words = tables; memory = memory; pmm = pmm }

pub given_page : pmm_alloc_one_page with_page ≡ ok (one_page with_page 40, empty)
unfolding pmm_alloc_one_page
given_page = refl

given_none : pmm_alloc_one_page empty ≡ ok (failed, empty)
unfolding pmm_alloc_one_page pmm_alloc_pages find_class class_of bit_count finish_alloc pop_block
given_none = refl

get_pte-get_pte_example :
    (get_pte (get_pte 0xC010_1234) ≡ get_pde 0xC010_1234)
    × (0xFFC0_0000 ≤ get_pte 0xC010_1234)
    × (get_pte 0xC010_1234 < 2 ^ 32)
    × (get_pte 0xC010_1234 % 4 ≡ 0)
    × ((get_pte 0xC010_1234 == get_pte 0xC010_1000) ≡ true)
get_pte-get_pte_example = get_pte-get_pte 0xC010_1234 0xC010_1000 (omega arith) (omega arith)

vmm_kern_alloc_one_page-some_example :
    Returns
      (λ r t.
        (r ≡ 0xC000_3000)
        × ((v : ℕ)
            → v < 2 ^ 32
            → vmm_v2p t.words v
              ≡ (if v / 4096 == 0xC0003 then 0x12_8000 + v % 4096 else vmm_v2p tables v))
        × Allocates pool 0xC000_3000 memory (0xC000_3000, t.memory)
        × (t.pmm ≡ empty))
      (vmm_kern_alloc_one_page pool 0xC000_3000 (machine with_page))
unfolding bit page_no_to_addr
vmm_kern_alloc_one_page-some_example =
    vmm_kern_alloc_one_page-some pool pool-IsWellPlaced (machine with_page) memory-AreBytes
      0xC000_3000 (omega arith) refl refl (one_page with_page 40) empty given_page
      (λ a. omega arith) (omega arith) refl (omega arith)

vmm_kern_release_one_page_lem_example :
    let t = vmm_kern_release_one_page pool 0xC000_3000 (machine empty) in
    (t.words (get_pte 0xC000_3000) % 2 ≡ 0)
    × ((b : ℕ) → b ≢ get_pte 0xC000_3000 → t.words b ≡ tables b)
    × ((k : ℕ)
        → k < 2 * 8
        → is_free pool t.memory k
          ≡ (if number_of pool 0xC000_3000 == k then true else is_free pool memory k))
    × (t.pmm ≡ empty)
    × ((v : ℕ) → v < 2 ^ 32 → vmm_v2p t.words v ≡ vmm_v2p tables v)
vmm_kern_release_one_page_lem_example =
    vmm_kern_release_one_page_lem pool pool-IsWellPlaced (machine empty) memory-AreBytes
      (λ a. omega arith) 0xC000_3000 (omega arith) (omega arith) refl
