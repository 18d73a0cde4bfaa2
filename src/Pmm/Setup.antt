-- ===== src/Pmm/Setup.antt =====
-- The set-up of the page manager, `pmm_page_init` and `pmm_init` of kernel/modules/pmm/pmm.c, and its counters.
--
-- The memory map is the list of its entries. `kern_end` is the address of the linker's symbol. The loop
-- that files the blocks of 1024 pages gets 2^22 rounds, as many as fit into 32 bits; the loops over pages
-- are recursions on their number.
pub mod Fill
pub mod Single
pub mod Init
pub mod Cover
pub mod Map
pub mod Count
use bhos.Common.{
  ℕ, zero, suc, ◌+◌, ◌-◌, ◌*◌, ◌^◌, Bool, true, false, Option, none, some, List, [], ◌∷◌, leb, ltb,
  ◌==◌, ◌&&◌, if◌then◌else◌, u32, sub32, shr, update, ok, fault, Fault, Cmd, pure, ◌>>=◌, ◌>>◌,
}
use bhos.Chain.{Links}
use bhos.Pmm.{Pmm, append_block}

-- The fields of pm_entry_t that are read; the C field `type` is `kind`.
pub record PmEntry : Type 0 where
  pub base_addr_low : ℕ
  pub length_low : ℕ
  pub kind : ℕ

-- The loop of `get_max_pm_addr`, from the value that `max_addr` has.
unfoldable pub max_pm_addr_from : ℕ → List PmEntry → ℕ
max_pm_addr_from max_addr [] = max_addr
max_pm_addr_from max_addr (e ∷ es) =
    let end = u32 (e.base_addr_low + e.length_low) in
    max_pm_addr_from (if e.kind == 1 && ltb max_addr end then end else max_addr) es

abbrev pub get_max_pm_addr : List PmEntry → ℕ
get_max_pm_addr = max_pm_addr_from 0

-- page_array[i].next = NULL for the first `n` pages.
unfoldable pub clear_pages : ℕ → Links → Links
clear_pages zero nx = nx
clear_pages (suc n) nx = update (clear_pages n nx) n none

-- append_block(page, class), for each page and class in turn.
unfoldable pub append_blocks : List (ℕ × ℕ) → Cmd Pmm (Unit {0})
append_blocks [] = pure tt
append_blocks (b ∷ bs) = append_block b.0 b.1 >> append_blocks bs

-- The twelve calls that `pmm_page_init` writes out.
abbrev pub first_blocks : List (ℕ × ℕ)
first_blocks =
    (0, 0)
    ∷ (1, 0)
    ∷ (2, 1)
    ∷ (4, 2)
    ∷ (8, 3)
    ∷ (16, 4)
    ∷ (32, 5)
    ∷ (64, 6)
    ∷ (128, 7)
    ∷ (256, 8)
    ∷ (512, 9)
    ∷ (1024, 10)
    ∷ []

-- for(; temp_page_no < (pmm_max_page_no-1024); temp_page_no += 1024), with its last `temp_page_no`.
unfoldable pub fill_1024 : ℕ → ℕ → Cmd Pmm ℕ
fill_1024 zero temp_page_no s = fault Fault.endless
fill_1024 (suc fuel) temp_page_no s = elim (ltb temp_page_no (sub32 s.max_page_no 1024)) [
  | true ↦ (append_block temp_page_no 10 >> fill_1024 fuel (u32 (temp_page_no + 1024))) s
  | false ↦ ok (temp_page_no, s)
]

-- The loop that links the next `n` pages into the single-page buffer, behind `temp_single_probe`.
unfoldable pub put_singles : ℕ → ℕ → Option ℕ → Cmd Pmm (Unit {0})
put_singles zero temp_page_no temp_single_probe s = ok (tt, s)
put_singles (suc n) temp_page_no temp_single_probe s = elim s.single [
  | none ↦
      put_singles n (temp_page_no + 1) (some temp_page_no) (record s { single = some temp_page_no })
  | some _ ↦ elim temp_single_probe [
    | none ↦ fault Fault.null_pointer
    | some probe ↦
        put_singles n (temp_page_no + 1) (some temp_page_no)
          (record s { next = update s.next probe (some temp_page_no) })
  ]
]

-- The end of `pmm_page_init`.
unfoldable pub put_buffer : ℕ → Cmd Pmm (Unit {0})
put_buffer temp_page_no s =
    put_singles (s.max_page_no - temp_page_no) temp_page_no none
      (record s { single_first = temp_page_no })

-- MULTI_LINK and `page_array` at the start of `pmm_page_init`.
unfoldable pub clear_links : Pmm → Pmm
clear_links s = record s { heads = λ _. none; next = clear_pages s.max_page_no s.next }

-- sizeof(pm_page_t)
abbrev pub page_size_of : ℕ
page_size_of = 12

-- Where `page_array` begins, and where the memory in front of the kernel ends: from 640 KB on there are the
-- video memory and the ROM of a PC, and from 1 MB on the kernel.
abbrev pub page_array_addr : ℕ
page_array_addr = 0xC000_0100

abbrev pub low_memory_end : ℕ
low_memory_end = 0xC00A_0000

-- The array for `max` pages fits into that memory.
abbrev pub array_fits : ℕ → Bool
array_fits max = leb (page_array_addr + page_size_of * max) low_memory_end

-- The code has no test. An array that is too long is written over the video memory, the ROM and the kernel:
-- no state of the model comes after that.
unfoldable pub pmm_page_init : Cmd Pmm (Unit {0})
pmm_page_init s =
    if array_fits s.max_page_no
    then (append_blocks first_blocks >> (fill_1024 4194304 2048 >>= put_buffer)) (clear_links s)
    else fault Fault.overrun

unfoldable pub pmm_init : ℕ → List PmEntry → Cmd Pmm (Unit {0})
pmm_init kern_end entries s =
    let page_start = u32 ((shr kern_end 12 + 1) * 2 ^ 12) in
    let page_end = u32 (shr (get_max_pm_addr entries) 12 * 2 ^ 12) in
    pmm_page_init
      (record s { page_start = page_start; max_page_no = shr (sub32 page_end page_start) 12 })

-- for(; probe != NULL; probe = probe->next) counter++;
unfoldable pub counte_helper : ℕ → Links → Option ℕ → ℕ → Option ℕ
counte_helper zero nx probe counter = none
counte_helper (suc fuel) nx probe counter = elim probe [
  | none ↦ some counter
  | some p ↦ counte_helper fuel nx (nx p) (u32 (counter + 1))
]

-- The entries of `block_count_array`; the walk gets one round more than there are pages.
abbrev pub get_block_count : Pmm → ℕ → Option ℕ
get_block_count s c =
    if leb c 10 then counte_helper (suc s.max_page_no) s.next (s.heads c) 0 else some 0

abbrev pub get_single_count : Pmm → Option ℕ
get_single_count s = counte_helper (suc s.max_page_no) s.next s.single 0
