-- ===== src/Tests/UserTests.antt =====
-- Virtual memory of user tasks and its set-up, kernel/modules/vmm/vmm.c and user_task.c: a task with sixteen
-- pages from 4 MB on, beside the kernel's pool of VmmTests.
use bhos.Common.{
  ℕ, ◌+◌, ◌-◌, ◌*◌, ◌/◌, ◌<◌, ◌≡◌, refl, arith, true, false, ltb, leb, ◌&&◌, ◌==◌, if◌then◌else◌,
  Returns,
}
use bhos.Bitmap.One.{IsWellPlaced, is_free, number_of}
use bhos.Vmm.{get_pte}
use bhos.Vmm.User.{
  UserTask, user_vmm_alloc_erro, vmm_user_alloc_one_page, fill_pdt, user_descriptor,
}
use bhos.Vmm.User.Pages.{vmm_user_alloc_one_page-kernel}
use bhos.Vmm.User.Directory.{fill_pdt-entries}
use bhos.Vmm.Init.{get_kern_used_page_count, kern_vmm_pool, vmm_kern_init}
use bhos.Vmm.Init.Pool.{vmm_kern_init-is_free}
use bhos.Tests.VmmTests.{pool, pool-IsWellPlaced, memory, memory-AreBytes, tables, machine, empty}

abbrev task : UserTask
task = record {
  is_kern_thread = false;
  user_vmm_pool = record { vaddr_header = 0x600; length = 2; target_addr_header = 0x40_0000 };
  pdt_vaddr = 0xC020_0000;
}

user_pool-IsWellPlaced : IsWellPlaced task.user_vmm_pool
user_pool-IsWellPlaced = omega arith

user_descriptor_test : user_descriptor 0x12_8000 ≡ 0x12_8107
unfolding user_descriptor
user_descriptor_test = refl

vmm_user_alloc_one_page-kernel_example :
    Returns
      (λ r t.
        (r ≡ user_vmm_alloc_erro)
        × ((k : ℕ)
            → k < 2 * 8
            → is_free pool t.memory k
              ≡ (if number_of pool 0xC000_3000 == k then true else is_free pool memory k))
        × (t.words ≡ tables)
        × (t.pmm ≡ empty))
      (vmm_user_alloc_one_page pool task 0xC000_3000 (machine empty))
vmm_user_alloc_one_page-kernel_example =
    vmm_user_alloc_one_page-kernel pool task 0xC000_3000 (machine empty) refl user_pool-IsWellPlaced
      pool-IsWellPlaced memory-AreBytes (omega arith) refl refl

fill_pdt-entries_example : (fill_pdt 0xC020_0000 (machine empty)).words (0xC020_0000 + 4 * 800) ≡ (
    if ltb 800 768
    then 0
    else if ltb 800 1023
    then tables (0xFFFF_F000 + 4 * 800)
    else tables (get_pte 0xC020_0000) / 4096 * 4096 + 0x103)
fill_pdt-entries_example =
    fill_pdt-entries 0xC020_0000 (machine empty) 800 (λ a. omega arith) refl (omega arith)
      (omega arith)

vmm_kern_init-is_free_example :
    Returns
      (λ _ t.
        is_free (kern_vmm_pool 0xC030_0000) t 600
        ≡ (leb (get_kern_used_page_count 0x21_0000) 600 && ltb 600 (0x4_0000 - 1024)))
      (vmm_kern_init 0xC030_0000 0x21_0000 memory)
vmm_kern_init-is_free_example =
    vmm_kern_init-is_free 0xC030_0000 0x21_0000 600 memory (omega arith) memory-AreBytes
      (omega arith) (omega arith)
