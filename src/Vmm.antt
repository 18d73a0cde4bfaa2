-- ===== src/Vmm.antt =====
-- Kernel virtual memory, kernel/modules/vmm/vmm.c and include/vmm.h.
--
-- `words` holds the 32-bit words at the addresses of page tables and page directories, `memory` the
-- bytes of the bitmaps; the code keeps the two apart. A flush of the TLB changes nothing here. The
-- pool `kern_vmm_pool` is an argument.
--
-- The tables show themselves in the last 4 MB, whose page-table entries are the entries of the directory.
-- An entry has its address there as its name; that a change of a directory entry puts another table behind
-- 4 MB of addresses is not modelled, so for pages of the last 4 MB, which `vmm_kern_init` takes out of the
-- pool and nothing releases, `mapped` and `vmm_kern_release_one_page` show no more than the entry itself.
pub mod Address
pub mod Kernel
pub mod Lowest
pub mod User
pub mod Init
use bhos.Common.{
  ℕ, ◌+◌, ◌*◌, Bool, true, false, not, ltb, ◌==◌, if◌then◌else◌, u32, shr, update, bit_and, bit_or,
  ok, fault, Cmd,
}
use bhos.Bitmap.{
  Memory, Bitmap, return_erro, bitmap_alloc_one_page, bitmap_release_one_page, bitmap_alloc,
}
use bhos.Pmm.{Pmm, Alloc}
use bhos.Threads.{v2p_error}
use bhos.Pmm.Request.{pmm_alloc_one_page}

pub record Vmm : Type 0 where
  pub words : ℕ → ℕ
  pub memory : Memory
  pub pmm : Pmm

abbrev pub page_desc_p : ℕ
page_desc_p = 0x1

abbrev pub page_desc_rw_w : ℕ
page_desc_rw_w = 0x2

abbrev pub page_desc_us_s : ℕ
page_desc_us_s = 0x0

abbrev pub page_desc_g : ℕ
page_desc_g = 0x100

abbrev pub kern_vmm_alloc_erro : ℕ
kern_vmm_alloc_erro = 0xFFFF_FFFF

unfoldable pub get_pte : ℕ → ℕ
get_pte target0 =
    let target = bit_and target0 0xFFFF_F000 in
    let addr_high10 : ℕ = 0xFFC0_0000 in
    let addr_middle10 = bit_and (shr target 10) 0x003F_F000 in
    let addr_low12 = bit_and (bit_and (shr target 12) 0x3FF * 4) 0xFFF in
    bit_or (bit_or addr_high10 addr_middle10) addr_low12

unfoldable pub get_pde : ℕ → ℕ
get_pde target0 =
    let target = bit_and target0 0xFFFF_F000 in
    let addr_high10 : ℕ = 0xFFC0_0000 in
    let addr_middle10 : ℕ = 0x003F_F000 in
    let addr_low12 = bit_and (bit_and (shr target 22) 0x3FF * 4) 0xFFF in
    bit_or (bit_or addr_high10 addr_middle10) addr_low12

-- `*ptr==(*ptr)|0x00000001`, which C reads as `(*ptr==(*ptr))|0x00000001`.
unfoldable pub present_test : ℕ → Bool
present_test w = not (bit_or (if w == w then 1 else 0) 0x0000_0001 == 0)

unfoldable pub check_vaddr_present : (ℕ → ℕ) → ℕ → Bool
check_vaddr_present words vaddr =
    if present_test (words (get_pde vaddr))
    then (if present_test (words (get_pte vaddr)) then true else false)
    else false

unfoldable pub vmm_v2p : (ℕ → ℕ) → ℕ → ℕ
vmm_v2p words vaddr =
    let ptr = get_pte vaddr in
    if check_vaddr_present words vaddr
    then bit_or (bit_and (words ptr) 0xFFFF_F000) (bit_and 0x0000_0FFF vaddr)
    else v2p_error

-- What `vmm_kern_alloc_one_page` and `vmm_kern_alloc` write to the page-table entry.
unfoldable pub descriptor : ℕ → ℕ
descriptor addr =
    u32 (bit_and addr 0xFFFF_F000 + page_desc_rw_w + page_desc_us_s + page_desc_g + page_desc_p)

-- The directory entry of the page gets its P bit when the test finds it missing.
unfoldable pub set_present : (ℕ → ℕ) → ℕ → ℕ → ℕ
set_present words pde =
    if present_test (words pde) then words else update words pde (bit_or (words pde) 0x0000_0001)

module _ (kern_vmm_pool : Bitmap) where
  -- The page-table entry for the page `target`, or the way out when there is no physical page.
  unfoldable pub mapped : ℕ → (ℕ → ℕ) → Memory → Alloc × Pmm → ℕ × Vmm
  mapped target words memory (phy_page, pmm) =
      if phy_page.state == 0
      then (
        kern_vmm_alloc_erro,
        record {
          words = words;
          memory = bitmap_release_one_page kern_vmm_pool target memory;
          pmm = pmm;
        },
      )
      else (
        target,
        record {
          words = update words (get_pte target) (descriptor phy_page.addr);
          memory = memory;
          pmm = pmm;
        },
      )

  -- The part that `vmm_kern_alloc_one_page` and `vmm_kern_alloc` share, for a page `target` that the
  -- pool has given.
  unfoldable pub map_page : ℕ → Cmd Vmm ℕ
  unfolding mapped
  map_page target s = elim (pmm_alloc_one_page s.pmm) [
    | fault e ↦ fault e
    | ok r ↦ ok (mapped target (set_present s.words (get_pde target)) s.memory r)
  ]

  unfoldable pub vmm_kern_alloc_one_page : ℕ → Cmd Vmm ℕ
  vmm_kern_alloc_one_page target s =
      let got = bitmap_alloc_one_page kern_vmm_pool target s.memory in
      let s1 = record s { memory = got.1 } in
      if got.0 == return_erro then ok (kern_vmm_alloc_erro, s1) else map_page target s1

  unfoldable pub vmm_kern_alloc : Cmd Vmm ℕ
  vmm_kern_alloc s =
      let got = bitmap_alloc kern_vmm_pool s.memory in
      let s1 = record s { memory = got.1 } in
      if got.0 == return_erro then ok (kern_vmm_alloc_erro, s1) else map_page got.0 s1

  -- The physical page is not given back: the call is commented out in the source.
  unfoldable pub vmm_kern_release_one_page : ℕ → Vmm → Vmm
  vmm_kern_release_one_page target s =
      if ltb target 0xC000_0000
      then s
      else let desc_vaddr = get_pte target in
        let desc_inf = s.words desc_vaddr in
        record {
          words = update s.words desc_vaddr (bit_and desc_inf 0xFFFF_FFFE);
          memory = bitmap_release_one_page kern_vmm_pool target s.memory;
          pmm = s.pmm;
        }

unfoldable pub user_get_pde : ℕ → ℕ → ℕ
user_get_pde user_pdt_vaddr target_vaddr =
    let times = bit_and (shr target_vaddr 22) 0x3FF in u32 (user_pdt_vaddr + u32 (times * 4))

-- Here the test of the P bit has its parentheses.
unfoldable pub vmm_user_check_pt_present : (ℕ → ℕ) → ℕ → ℕ → Bool
vmm_user_check_pt_present words user_pdt_vaddr target_vaddr =
    let times = bit_and (shr target_vaddr 22) 0x3FF in
    let word = words (u32 (user_pdt_vaddr + u32 (times * 4))) in
    if word == bit_or word 0x0000_0001 then true else false
