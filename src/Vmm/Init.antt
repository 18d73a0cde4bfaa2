-- ===== src/Vmm/Init.antt =====
-- The set-up of virtual memory: `vmm_kern_init`, `create_kern_page_table` and `vmm_pre_init` of
-- kernel/modules/vmm/vmm.c.
--
-- `kern_bitmap` and `kern_end` are addresses that the linker and the boot code give.
pub mod Pool
use bhos.Common.{
  ℕ, zero, suc, ◌+◌, ◌-◌, ◌/◌, not, ltb, ◌==◌, if◌then◌else◌, u32, sub32, update, bit_and, ok,
  fault, Fault, Cmd,
}
use bhos.Bitmap.{Memory, Bitmap, page_size, bitmap_init_mem, bitmap_alloc}
use bhos.Pmm.Request.{pmm_alloc_one_page}
use bhos.Vmm.{Vmm, page_desc_p, page_desc_rw_w, page_desc_us_s}
use bhos.Vmm.User.{clear_words}

abbrev pub get_kern_used_page_count : ℕ → ℕ
get_kern_used_page_count kern_end = u32 (kern_end + page_size - 1) / page_size

abbrev pub kern_vmm_pool : ℕ → Bitmap
kern_vmm_pool kern_bitmap = record {
  vaddr_header = kern_bitmap;
  length = 0x8000;
  target_addr_header = 0xC000_0000;
}

-- bitmap_alloc, `n` times
unfoldable pub alloc_times : Bitmap → ℕ → Memory → Memory
alloc_times bm zero m = m
alloc_times bm (suc n) m = alloc_times bm n (bitmap_alloc bm m).1

-- The `n` bytes in front of `probe + 1`, from the last one down.
unfoldable pub clear_down : ℕ → ℕ → Memory → Memory
clear_down zero probe m = m
clear_down (suc n) probe m = clear_down n (sub32 probe 1) (update m probe 0)

unfoldable pub vmm_kern_init : ℕ → ℕ → Cmd Memory (Unit {0})
vmm_kern_init kern_bitmap kern_end m =
    let pool = kern_vmm_pool kern_bitmap in
    let page_used = get_kern_used_page_count kern_end in
    if ltb 1024 page_used
    then fault Fault.endless
    else ok (
      tt,
      clear_down 128 (u32 (kern_bitmap + 0x8000 - 1))
          (alloc_times pool page_used (bitmap_init_mem pool m)),
    )

abbrev pub vmm_init : ℕ → ℕ → Cmd Memory (Unit {0})
vmm_init = vmm_kern_init

-- The test is the wrong way round: a call that gets a page stops.
unfoldable pub create_kern_page_table : ℕ → Cmd Vmm (Unit {0})
create_kern_page_table pde_vaddr s = elim (pmm_alloc_one_page s.pmm) [
  | fault e ↦ fault e
  | ok (pm, pmm) ↦
      if not (pm.state == 0)
      then fault Fault.endless
      else (let words = clear_words pm.addr 1024 s.words in
          ok (
            tt,
            record s {
              pmm = pmm;
              words = update words pde_vaddr (
                  u32
                    (bit_and pm.addr 0xFFFF_F000 + page_desc_p + page_desc_rw_w + page_desc_us_s));
            },
          ))
]

unfoldable pub vmm_pre_init : ℕ → Vmm → Vmm
vmm_pre_init kern_dir_table_paddr s = record s {
  words = update s.words (u32 (kern_dir_table_paddr + 0xC000_0000)) 0;
}
