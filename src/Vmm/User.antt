-- ===== src/Vmm/User.antt =====
-- Pages of a user task: `create_user_page_table` and `vmm_user_alloc_one_page` of kernel/modules/vmm/vmm.c,
-- and the directory and the bitmap of a task, kernel/modules/user_task/user_task.c.
--
-- A task is the three fields of its TCB that the calls read. The text that a call prints is left out; that
-- it closes the interrupts before and opens them behind is the part of a state with threads, which asks
-- `shows_directory`. An entry of a table is read and written under the
-- address that the call uses; that a page table of a task shows itself under a second one is left out.
pub mod Pages
pub mod Directory
use bhos.Common.{
  ℕ, zero, suc, ◌+◌, ◌-◌, ◌*◌, Bool, true, false, not, ◌&&◌, ◌==◌, if◌then◌else◌, u32, update,
  bit_and, ok, fault, Fault, Cmd, ◌>>=◌,
}
use bhos.Bitmap.{
  Bitmap, return_erro, bitmap_alloc_one_page, bitmap_release_one_page, bitmap_init_mem,
}
use bhos.Pmm.Request.{pmm_alloc_one_page}
use bhos.Threads.{v2p_error}
use bhos.Vmm.{
  Vmm, page_desc_p, page_desc_rw_w, page_desc_us_s, page_desc_g, kern_vmm_alloc_erro, get_pte,
  get_pde, vmm_v2p, vmm_kern_alloc, vmm_kern_alloc_one_page, vmm_kern_release_one_page,
  user_get_pde, vmm_user_check_pt_present,
}

pub record UserTask : Type 0 where
  pub is_kern_thread : Bool
  pub user_vmm_pool : Bitmap
  pub pdt_vaddr : ℕ

abbrev pub page_desc_us_u : ℕ
page_desc_us_u = 0x4

abbrev pub user_vmm_alloc_erro : ℕ
user_vmm_alloc_erro = 0xFFFF_FFFF

-- A global that nothing writes.
abbrev pub user_page_dir_is_loaded : Bool
user_page_dir_is_loaded = true

-- `bzero` and `memset` with 0 over `n` words of a page.
unfoldable pub clear_words : ℕ → ℕ → (ℕ → ℕ) → ℕ → ℕ
clear_words a zero words = words
clear_words a (suc n) words = update (clear_words a n words) (u32 (a + 4 * n)) 0

-- `memcpy` of `n` words.
unfoldable pub copy_words : ℕ → ℕ → ℕ → (ℕ → ℕ) → ℕ → ℕ
copy_words dest src zero words = words
copy_words dest src (suc n) words =
    let before = copy_words dest src n words in
    update before (u32 (dest + 4 * n)) (before (u32 (src + 4 * n)))

-- What the calls write to an entry of a user's page table or page directory.
unfoldable pub user_descriptor : ℕ → ℕ
user_descriptor addr =
    u32 (bit_and addr 0xFFFF_F000 + page_desc_rw_w + page_desc_us_u + page_desc_g + page_desc_p)

-- The entry of a new page table at `re_vaddr`.
unfoldable pub fill_pde : ℕ → ℕ → Vmm → Bool × Vmm
fill_pde pde_vaddr re_vaddr s =
    let words = clear_words re_vaddr 1024 s.words in
    let page_paddr = vmm_v2p words re_vaddr in
    if page_paddr == v2p_error
    then (false, record s { words = words })
    else (true, record s { words = update words pde_vaddr (user_descriptor page_paddr) })

unfoldable pub pdt_mapping_helper : ℕ → Vmm → Vmm
pdt_mapping_helper pdt_vaddr s = record s {
  words = copy_words (u32 (pdt_vaddr + 0xC00)) (get_pde 0xC000_0000) 256 s.words;
}

unfoldable pub mapping_last_pde : ℕ → ℕ → Vmm → Vmm
mapping_last_pde last_pte_vaddr pdt_paddr s = record s {
  words = update s.words last_pte_vaddr (
      u32 (
        bit_and pdt_paddr 0xFFFF_F000
        + page_desc_rw_w
        + page_desc_us_s
        + page_desc_g
        + page_desc_p));
}

-- `vmm_v2p` reads the tables that the two calls before it have left.
unfoldable pub fill_pdt : ℕ → Vmm → Vmm
unfolding pdt_mapping_helper mapping_last_pde
fill_pdt pdt_vaddr s =
    let s1 =
      pdt_mapping_helper pdt_vaddr (record s { words = clear_words pdt_vaddr 1024 s.words }) in
    mapping_last_pde (u32 (pdt_vaddr + 0x1000 - 4)) (vmm_v2p s1.words pdt_vaddr) s1

-- USER_TASK_INIT_ERRO
abbrev pub user_task_init_erro : ℕ
user_task_init_erro = 0xFFFF_FFFF

-- Whether `vmm_user_alloc_one_page` comes to the text that it prints, between `cli` and `sti`.
unfoldable pub shows_directory : UserTask → ℕ → Vmm → Bool
shows_directory task vaddr s =
    user_page_dir_is_loaded
    && not task.is_kern_thread
    && not ((bitmap_alloc_one_page task.user_vmm_pool vaddr s.memory).0 == return_erro)
    && vmm_user_check_pt_present s.words task.pdt_vaddr vaddr

module _ (kern_vmm_pool : Bitmap) where
  unfoldable pub create_user_page_table : ℕ → Cmd Vmm Bool
  create_user_page_table pde_vaddr = vmm_kern_alloc kern_vmm_pool >>= λ re_vaddr s.
      if re_vaddr == kern_vmm_alloc_erro then ok (false, s) else ok (fill_pde pde_vaddr re_vaddr s)

  -- clean_bitmap_alloc
  unfoldable pub clean : ℕ → Cmd Vmm ℕ
  clean vaddr s = ok (
    user_vmm_alloc_erro,
    record s { memory = bitmap_release_one_page kern_vmm_pool vaddr s.memory },
  )

  -- The directory entry of the page, with a new page table if there is none.
  unfoldable pub ensure_page_table : UserTask → ℕ → Cmd Vmm Bool
  unfolding create_user_page_table
  ensure_page_table task vaddr s =
      if vmm_user_check_pt_present s.words task.pdt_vaddr vaddr
      then ok (true, s)
      else create_user_page_table (user_get_pde task.pdt_vaddr vaddr) s

  -- The physical page and its entry.
  unfoldable pub user_map_page : ℕ → Cmd Vmm ℕ
  unfolding clean
  user_map_page vaddr s = elim (pmm_alloc_one_page s.pmm) [
    | fault e ↦ fault e
    | ok (phy_page, pmm) ↦
        let s1 : Vmm = record s { pmm = pmm } in
        if phy_page.state == 0
        then clean vaddr s1
        else ok (
          bit_and vaddr 0xFFFF_F000,
          record s1 { words = update s.words (get_pte vaddr) (user_descriptor phy_page.addr) },
        )
  ]

  unfoldable pub vmm_user_alloc_one_page : UserTask → ℕ → Cmd Vmm ℕ
  unfolding clean ensure_page_table user_map_page
  vmm_user_alloc_one_page task vaddr s =
      if not user_page_dir_is_loaded
      then ok (user_vmm_alloc_erro, s)
      else if task.is_kern_thread
      then ok (user_vmm_alloc_erro, s)
      else (let got = bitmap_alloc_one_page task.user_vmm_pool vaddr s.memory in
          let s1 : Vmm = record s { memory = got.1 } in
          if got.0 == return_erro
          then clean vaddr s1
          else (ensure_page_table task vaddr >>= λ done.
                if done then user_map_page vaddr else clean vaddr)
              s1)

  -- The loop of `create_user_task_bitmap` over the pages behind the first one.
  unfoldable pub alloc_run : ℕ → ℕ → Cmd Vmm Bool
  alloc_run zero addr_for s = ok (true, s)
  alloc_run (suc n) addr_for s = elim (vmm_kern_alloc_one_page kern_vmm_pool addr_for s) [
    | fault e ↦ fault e
    | ok (r, t) ↦ elim (r == kern_vmm_alloc_erro) [
      | true ↦ ok (false, t)
      | false ↦ alloc_run n (u32 (addr_for + 0x1000)) t
    ]
  ]

  -- while(True) ends the call when a page is missing.
  unfoldable pub create_user_task_bitmap : Cmd Vmm Bitmap
  create_user_task_bitmap = vmm_kern_alloc kern_vmm_pool >>= λ vm_head s0.
      if vm_head == kern_vmm_alloc_erro
      then fault Fault.endless
      else (alloc_run 23 (u32 (vm_head + 0x1000)) >>= λ alloc_flag s.
            if not alloc_flag
            then fault Fault.endless
            else (let re_bitmap : Bitmap = record {
              vaddr_header = vm_head;
              target_addr_header = 0;
              length = 0x1_8000;
            } in
                ok (re_bitmap, record s { memory = bitmap_init_mem re_bitmap s.memory })))
          s0

  -- vmm_kern_release_one_page(vm); vm += val_4KB; for `n` pages.
  unfoldable pub release_run : ℕ → ℕ → Vmm → Vmm
  release_run zero vm s = s
  release_run (suc n) vm s =
      release_run n (u32 (vm + 0x1000)) (vmm_kern_release_one_page kern_vmm_pool vm s)

  abbrev pub release_user_task_bitmap : Bitmap → Vmm → Vmm
  release_user_task_bitmap bm = release_run 24 bm.vaddr_header

  unfoldable pub create_user_task_pdt : Cmd Vmm ℕ
  create_user_task_pdt = vmm_kern_alloc kern_vmm_pool >>= λ pdt_vaddr s.
      if pdt_vaddr == kern_vmm_alloc_erro
      then ok (user_task_init_erro, s)
      else ok (pdt_vaddr, fill_pdt pdt_vaddr s)

  abbrev pub release_user_task_pdt : ℕ → Vmm → Vmm
  release_user_task_pdt = vmm_kern_release_one_page kern_vmm_pool
