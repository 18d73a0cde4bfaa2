-- ===== src/Tests/TasksTests.antt =====
-- Threads on kernel pages and the start of a user task, kernel/modules/threads/threads.c and
-- kernel/modules/user_task/user_task.c, with the ring of ThreadsTests and the kernel's pool of VmmTests.
use bhos.Common.{
  ℕ, ◌+◌, ◌/◌, ◌%◌, ◌^◌, ◌<◌, ◌≡◌, refl, arith, true, false, none, some, [], ◌∷◌, ◌==◌,
  if◌then◌else◌, update, Returns, ok,
}
use bhos.Bitmap.{Bitmap}
use bhos.Chain.Remove.{before_last}
use bhos.Bitmap.Bits.{bit}
use bhos.Bitmap.Scan.{Takes}
use bhos.Pmm.{Pmm, page_no_to_addr}
use bhos.Pmm.Request.{pmm_alloc_one_page, alloc_tail, one_page}
use bhos.Threads.{is_ready, time_cont, magic_number}
use bhos.Threads.Ring.{RingTo}
use bhos.Vmm.{vmm_v2p, user_get_pde}
use bhos.Tasks.{Machine, StartUserTaskParams, create_kern_thread, start_user_task, task_of}
use bhos.Tasks.Create.{create_kern_thread-RingTo}
use bhos.Tasks.Start.{IsStartable, stack_page, start_user_task-level3_stack}
use bhos.Tests.ThreadsTests.{machine}
use bhos.Tests.VmmTests.{
  pool, pool-IsWellPlaced, memory, memory-AreBytes, tables, with_page, empty, given_page,
}

abbrev user_pool : Bitmap
user_pool = record { vaddr_header = 0x10_0000; length = 0x1_8000; target_addr_header = 0 }

-- Pages 40 and 41 in the single buffer.
abbrev two_pages : Pmm
two_pages = record empty { single = some 40; next = update (λ _. none) 40 (some 41) }

abbrev booted : Pmm → Machine
booted pmm = record {
  threads = record machine {
    tcbs =
        update machine.tcbs 0x10
          (record (machine.tcbs 0x10) { is_kern_thread = false; pdt_vaddr = 0xC020_0000 });
  };
  vmm = record { words = tables; memory = memory; pmm = pmm };
  user_vmm_pool = λ _. user_pool;
}

abbrev params : StartUserTaskParams
params = record { is_from_file = false; function = 0xC010_0000; args = 0; fd = 0 }

create_kern_thread-RingTo_example :
    Returns
      (λ _ t.
        (page : ℕ) × (t.threads.cur ≡ some 0x10)
        × RingTo t.threads.tcbs 0x10 0x10 (page ∷ 0x20 ∷ 0x30 ∷ [])
        × (is_ready (t.threads.tcbs page).task_status ≡ true)
        × ((t.threads.tcbs page).time_left ≡ time_cont)
        × ((t.threads.tcbs page).magic ≡ magic_number)
        × ((n : ℕ) × Takes pool memory (page, t.vmm.memory) n)
        × (vmm_v2p t.vmm.words page ≡ 0x12_8000 + page % 4096))
      (create_kern_thread pool 0x9000 4 0xC010_0000 0 (booted with_page))
unfolding bit page_no_to_addr
create_kern_thread-RingTo_example =
    create_kern_thread-RingTo pool pool-IsWellPlaced 0x9000 4 0xC010_0000 0 (booted with_page)
      memory-AreBytes 3 (omega arith) refl (one_page with_page 40) empty given_page 0x10
      (0x20 ∷ 0x30 ∷ []) (λ a. omega arith) refl (omega arith) refl (refl, (refl, refl)) refl
      (λ n free. ground arith)

booted-IsStartable : IsStartable (task_of (booted two_pages) 0x10) (booted two_pages).vmm
unfolding bit user_get_pde
booted-IsStartable = record {
  user = refl;
  placed = omega arith;
  start = refl;
  whole = refl;
  bytes = memory-AreBytes;
  args_free = refl;
  stack_free = refl;
  words = λ a. omega arith;
  table = refl;
  in_front = omega arith;
}

abbrev one_left : Pmm
one_left = record two_pages { next = update two_pages.next 40 none }

abbrev none_left : Pmm
none_left = record one_left { single = none }

first_page : pmm_alloc_one_page two_pages ≡ ok (one_page two_pages 41, one_left)
unfolding pmm_alloc_one_page alloc_tail before_last
first_page = refl

second_page : pmm_alloc_one_page one_left ≡ ok (one_page one_left 40, none_left)
unfolding pmm_alloc_one_page
second_page = refl

start_user_task-level3_stack_example :
    Returns
      (λ stack t.
        (stack.eip ≡ 0xC010_0000)
        × (stack.cs ≡ 0x23)
        × (stack.eflags ≡ 0x202)
        × (stack.esp ≡ stack_page + 4096)
        × (stack.ss ≡ 0x2B)
        × ((v : ℕ)
            → v < 2 ^ 32
            → vmm_v2p t.vmm.words v ≡ (
                if v / 4096 == 0xB_FFFE
                then 0x12_8000 + v % 4096
                else if v / 4096 == 0xB_FFFF
                then 0x12_9000 + v % 4096
                else vmm_v2p tables v))
        × (t.threads ≡ record (booted two_pages).threads { int_flag = true }))
      (start_user_task pool 0x23 0x2B params (booted two_pages))
unfolding page_no_to_addr
start_user_task-level3_stack_example =
    start_user_task-level3_stack pool 0x23 0x2B 0x10 params (booted two_pages) booted-IsStartable
      (one_page two_pages 41) (one_page one_left 40) one_left none_left refl refl refl first_page
      second_page refl refl (omega arith) (omega arith)
