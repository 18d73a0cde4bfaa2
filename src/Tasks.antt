-- ===== src/Tasks.antt =====
-- Threads and user tasks on pages of the kernel: `create_kern_thread` of kernel/modules/threads/threads.c,
-- `create_user_task` and `start_user_task` of kernel/modules/user_task/user_task.c, with their types in
-- include/user_task.h and include/interrupt.h.
--
-- The machine joins the threads with virtual memory, and with the page pools in the TCBs of user threads.
-- STOP prints and loops for ever. `exit_int`, in assembly, takes the interrupt stack that `start_user_task`
-- ends with: that is its value here. The two selectors, from boot/boot.s, and the addresses of `exit` and
-- `start_user_task` are arguments.
pub mod Create
pub mod Start
use bhos.Common.{
  ℕ, ◌+◌, ◌-◌, ◌*◌, Bool, true, false, none, some, ◌==◌, if◌then◌else◌, u32, update, bit_and, ok,
  fault, Fault, Cmd, pure, ◌>>=◌,
}
use bhos.Bitmap.{Bitmap, page_size}
use bhos.Threads.{Threads, get_running_progress, cli, sti, create_thread}
use bhos.Vmm.{Vmm, kern_vmm_alloc_erro, vmm_kern_alloc}
use bhos.Vmm.User.{
  UserTask, user_vmm_alloc_erro, user_task_init_erro, vmm_user_alloc_one_page, shows_directory,
  create_user_task_bitmap, create_user_task_pdt,
}

pub record Machine : Type 0 where
  pub threads : Threads
  pub vmm : Vmm
  pub user_vmm_pool : ℕ → Bitmap

abbrev pub on_threads : {A : Type 0} → Cmd Threads A → Cmd Machine A
on_threads m s = elim (m s.threads) [
  | fault e ↦ fault e
  | ok r ↦ ok (r.0, record s { threads = r.1 })
]

abbrev pub on_vmm : {A : Type 0} → Cmd Vmm A → Cmd Machine A
on_vmm m s = elim (m s.vmm) [ fault e ↦ fault e | ok r ↦ ok (r.0, record s { vmm = r.1 }) ]

-- STOP(..)
abbrev pub stop : {A : Type 0} → Cmd Machine A
stop s = fault Fault.endless

-- start_user_task_params_t; NULL is 0.
pub record StartUserTaskParams : Type 0 where
  pub is_from_file : Bool
  pub function : ℕ
  pub args : ℕ
  pub fd : ℕ

-- interrupt_stack_t
pub record InterruptStack : Type 0 where
  pub int_no_1 : ℕ
  pub args : ℕ
  pub gs : ℕ
  pub fs : ℕ
  pub es : ℕ
  pub edi : ℕ
  pub esi : ℕ
  pub ebp : ℕ
  pub esp_duplicate : ℕ
  pub ebx : ℕ
  pub edx : ℕ
  pub ecx : ℕ
  pub eax : ℕ
  pub int_no_2 : ℕ
  pub error_no : ℕ
  pub eip : ℕ
  pub cs : ℕ
  pub eflags : ℕ
  pub esp : ℕ
  pub ss : ℕ

-- INTR_TO_LEVEL3_EFLAGS
abbrev pub intr_to_level3_eflags : ℕ
intr_to_level3_eflags = 0x202

module _ (kern_vmm_pool : Bitmap) (exit_addr : ℕ) where
  -- The bitmap that the source passes on is not set, and not read.
  unfoldable pub create_kern_thread : ℕ → ℕ → ℕ → Cmd Machine (Unit {0})
  create_kern_thread tid func args = on_vmm (vmm_kern_alloc kern_vmm_pool) >>= λ tcb_page.
      if tcb_page == kern_vmm_alloc_erro
      then stop
      else on_threads (create_thread exit_addr tid func args tcb_page 1 true 0)

  -- The last call of `create_user_task`, whose pool goes into the new TCB.
  unfoldable pub create_user_thread : ℕ → ℕ → ℕ → Bitmap → ℕ → ℕ → Cmd Machine (Unit {0})
  create_user_thread start_addr tid args pool pdt_vaddr tcb_page s =
      on_threads (create_thread exit_addr tid start_addr args tcb_page 1 false pdt_vaddr)
        (record s { user_vmm_pool = update s.user_vmm_pool tcb_page pool })

  unfoldable pub create_user_task : ℕ → ℕ → ℕ → Cmd Machine (Unit {0})
  unfolding create_user_thread
  create_user_task start_addr tid args =
      on_vmm (create_user_task_bitmap kern_vmm_pool) >>= λ user_vmm_pool.
      on_vmm (create_user_task_pdt kern_vmm_pool) >>= λ pdt_vaddr.
      if pdt_vaddr == user_task_init_erro
      then stop
      else on_vmm (vmm_kern_alloc kern_vmm_pool) >>= λ tcb_page.
          if tcb_page == kern_vmm_alloc_erro
          then stop
          else create_user_thread start_addr tid args user_vmm_pool pdt_vaddr tcb_page

-- What `vmm_user_alloc_one_page` reads of the TCB at `a`.
abbrev pub task_of : Machine → ℕ → UserTask
task_of s a = record {
  is_kern_thread = (s.threads.tcbs a).is_kern_thread;
  user_vmm_pool = s.user_vmm_pool a;
  pdt_vaddr = (s.threads.tcbs a).pdt_vaddr;
}

-- The interrupt stack when it is complete, for a user stack in the page at `user_stack_page`.
abbrev pub level3_stack : ℕ → ℕ → ℕ → ℕ → InterruptStack
level3_stack user_code user_data function user_stack_page = record {
  int_no_1 = 1;
  args = 0;
  gs = 0;
  fs = 0;
  es = 0;
  edi = 0;
  esi = 0;
  ebp = 0;
  esp_duplicate = 0;
  ebx = 0;
  edx = 0;
  ecx = 0;
  eax = 0;
  int_no_2 = 0;
  error_no = 0;
  eip = function;
  cs = bit_and user_code 0x0000_FFFF;
  eflags = intr_to_level3_eflags;
  esp = u32 (user_stack_page + page_size);
  ss = bit_and user_data 0x0000_FFFF;
}

-- `vmm_user_alloc_one_page` for the thread at `cur`. Where it prints, it leaves the interrupts open, whatever
-- they were before.
unfoldable pub alloc_user_page : Bitmap → ℕ → ℕ → Cmd Machine ℕ
alloc_user_page kern_vmm_pool cur vaddr s =
    on_vmm (vmm_user_alloc_one_page kern_vmm_pool (task_of s cur) vaddr) (record s {
      threads =
          if shows_directory (task_of s cur) vaddr s.vmm then sti (cli s.threads) else s.threads;
    })

-- One page for the task at `cur`, or STOP.
unfoldable pub task_page : Bitmap → ℕ → ℕ → Cmd Machine ℕ
unfolding alloc_user_page
task_page kern_vmm_pool cur vaddr = alloc_user_page kern_vmm_pool cur vaddr >>= λ page.
    if page == user_vmm_alloc_erro then stop else pure page

module _ (kern_vmm_pool : Bitmap) (user_code user_data : ℕ) where
  -- With the current thread at `cur`: the page of the arguments, then that of the stack.
  unfoldable pub start_function : ℕ → ℕ → Cmd Machine InterruptStack
  unfolding task_page
  start_function function cur = task_page kern_vmm_pool cur (0xC000_0000 - page_size) >>= λ _.
      task_page kern_vmm_pool cur (0xC000_0000 - 2 * page_size) >>= λ user_stack_page.
      pure (level3_stack user_code user_data function user_stack_page)

  unfoldable pub start_user_task : StartUserTaskParams → Cmd Machine InterruptStack
  unfolding start_function
  start_user_task params s =
      if params.is_from_file
      then stop s
      else if params.function == 0
      then stop s
      else elim (get_running_progress s.threads) [
        | none ↦ fault Fault.null_pointer
        | some cur ↦ start_function params.function cur s
      ]
