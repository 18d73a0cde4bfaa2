-- ===== src/Threads.antt =====
-- Kernel threads and the scheduler: kernel/modules/threads/threads.c, include/threads.h, the timer
-- handler and the interrupt flag of kernel/modules/interrupt/interrupt.c, `active_task` of
-- kernel/modules/user_task/user_task.c and `tss_update` of kernel/modules/tss/tss.c.
--
-- A TCB is the number that is its address; `tcbs` is the memory that holds them, and `stack` the
-- words of the kernel stacks. A walk along the ring of TCBs gets `count` rounds, the number of threads
-- that were made.
-- `v2p` (`vmm_v2p`) and `kern_dir` (`kern_dir_table_paddr`) are arguments. `switch_to`, in assembly, saves
-- and loads the flags and goes on in the thread that `cur_tcb` names; a call ends there, and the rest of one
-- that gave way runs when its thread is current again. Of the saved context the flags are kept up to date,
-- the stack pointer and the other registers are not. STOP never returns. Output is left out, also the WARNING
-- of `schedule` when no thread may run, which takes the lock of `printk` and may wake a thread waiting for it.
pub mod Ring
pub mod Schedule
pub mod Created
pub mod Members
use bhos.Common.{
  ℕ, zero, suc, ◌+◌, ◌-◌, ◌*◌, ◌/◌, ◌%◌, Bool, true, false, not, ◌&&◌, Option, none, some, ◌==◌,
  if◌then◌else◌, u32, sub32, update, ok, fault, Fault, Cmd, ◌>>=◌, ◌>>◌,
}

-- task_status_t
pub data TaskStatus : Type 0 where
  running ready blocked waiting hanging died : TaskStatus

abbrev pub is_running : TaskStatus → Bool
is_running running = true
is_running _ = false

abbrev pub is_ready : TaskStatus → Bool
is_ready ready = true
is_ready _ = false

-- TCB_t; of the saved context the two registers that `create_thread` sets. The page pool of a user
-- thread is left out: nothing here reads it.
pub record Tcb : Type 0 where
  pub kern_stack_top : ℕ
  pub task_status : TaskStatus
  pub time_counter : ℕ
  pub time_left : ℕ
  pub next : ℕ
  pub tid : ℕ
  pub page_counte : ℕ
  pub page_addr : ℕ
  pub is_kern_thread : Bool
  pub pdt_vaddr : ℕ
  pub eflags : ℕ
  pub esp : ℕ
  pub magic : ℕ

pub record Threads : Type 0 where
  pub cur : Option ℕ
  pub tcbs : ℕ → Tcb
  pub stack : ℕ → ℕ
  pub int_flag : Bool
  pub cr3 : ℕ
  pub esp0 : ℕ
  pub count : ℕ

abbrev pub time_cont : ℕ
time_cont = 10

abbrev pub magic_number : ℕ
magic_number = 0xFC0D_21AB

abbrev pub v2p_error : ℕ
v2p_error = 0xFFFF_FFFF

-- Assigns a TCB.
abbrev pub put : ℕ → Tcb → Threads → Threads
put a t s = record s { tcbs = update s.tcbs a t }

abbrev pub get_running_progress : Threads → Option ℕ
get_running_progress s = s.cur

abbrev pub check_kern_stack_overflow : Tcb → Bool
check_kern_stack_overflow t = if t.magic == magic_number then true else false

-- `_init_main_thread` and `threads_init`, for the address `main` of `main_TCB`. The fields that are
-- not set keep what the memory holds, and `count` is set to the one thread that there is.
unfoldable pub threads_init : ℕ → Threads → Threads
threads_init main s =
    put main
      (record (s.tcbs main) {
        tid = 0;
        time_counter = 0;
        time_left = time_cont;
        task_status = running;
        page_counte = 0;
        page_addr = 0;
        next = main;
        kern_stack_top = 0;
        is_kern_thread = true;
        magic = magic_number;
      })
      (record s { cur = some main; count = 1 })

abbrev pub cli : Threads → Threads
cli s = record s { int_flag = false }

abbrev pub sti : Threads → Threads
sti s = record s { int_flag = true }

unfoldable pub cli_condition : Cmd Threads Bool
cli_condition s = if s.int_flag then ok (true, record s { int_flag = false }) else ok (false, s)

unfoldable pub sti_condition : Bool → Cmd Threads (Unit {0})
sti_condition condition s =
    if condition
    then ok (tt, record s { int_flag = true })
    else ok (tt, record s { int_flag = false })

-- while(True) of `schedule`: the first ready thread behind `probe`, or `none` when the walk is back at
-- the current thread.
unfoldable pub find_next : ℕ → (ℕ → Tcb) → ℕ → ℕ → Option (Option ℕ)
find_next zero tcbs cur probe = none
find_next (suc fuel) tcbs cur probe =
    let p = (tcbs probe).next in
    let further = find_next fuel tcbs cur p in
    if p == cur then some none else if is_ready (tcbs p).task_status then some (some p) else further

-- The switch of `schedule` from thread `cur` to thread `p`, up to the load of the address space.
unfoldable pub switched : ℕ → ℕ → Threads → Threads
switched cur p s =
    let now = s.tcbs cur in
    let s1 =
      if is_running now.task_status then put cur (record now { task_status = ready }) s else s in
    let s2 = put p (record (s1.tcbs p) { task_status = running; time_left = time_cont }) s1 in
    record s2 { cur = some p }

-- The flags word that `pushf` reads: of its flags, the one that opens the interrupts (and bit 1, always set).
abbrev pub flags_word : Bool → ℕ
flags_word open_flag = if open_flag then 0x202 else 0x2

-- What `popf` makes of it.
abbrev pub opens : ℕ → Bool
opens eflags = eflags / 0x200 % 2 == 1

-- `switch_to` of threads_asm.s: the flags of thread `cur` are saved, and those of thread `p` are loaded.
unfoldable pub switch_to : ℕ → ℕ → Threads → Threads
switch_to cur p s =
    let s1 = put cur (record (s.tcbs cur) { eflags = flags_word s.int_flag }) s in
    record s1 { int_flag = opens (s1.tcbs p).eflags }

-- sti_condition(condition) at the end of `thread_block`, which a thread that has given way reaches when it
-- is current again.
unfoldable pub after_block : ℕ → Bool → Cmd Threads (Unit {0})
after_block now condition s = elim s.cur [
  | none ↦ ok (tt, s)
  | some p ↦ if p == now then sti_condition condition s else ok (tt, s)
]

module _ (v2p : ℕ → ℕ) (kern_dir : ℕ) where
  unfoldable pub active_task : ℕ → Cmd Threads (Unit {0})
  active_task a s =
      let t = s.tcbs a in
      if t.is_kern_thread
      then ok (tt, record s { cr3 = kern_dir })
      else if v2p t.pdt_vaddr == v2p_error
      then fault Fault.endless
      else ok (tt, record s { cr3 = v2p t.pdt_vaddr; esp0 = u32 (a + u32 (t.page_counte * 4096)) })

  -- The end of `schedule`, for a thread `p` that is ready.
  unfoldable pub dispatch : ℕ → ℕ → Cmd Threads (Unit {0})
  unfolding active_task switched switch_to
  dispatch cur p s = (active_task p >>= λ _ t. ok (tt, switch_to cur p t)) (switched cur p s)

  -- With no other thread ready the current one goes on; if it is neither ready nor running it is woken.
  unfoldable pub keep_running : ℕ → Cmd Threads (Unit {0})
  keep_running cur s =
      let now = s.tcbs cur in
      if not (is_ready now.task_status) && not (is_running now.task_status)
      then ok (tt, put cur (record now { time_left = time_cont; task_status = running }) s)
      else ok (tt, put cur (record now { time_left = time_cont }) s)

  -- `schedule` with a current thread.
  unfoldable pub schedule_from : ℕ → Cmd Threads (Unit {0})
  schedule_from cur s =
      if check_kern_stack_overflow (s.tcbs cur)
      then elim (find_next s.count s.tcbs cur cur) [
        | none ↦ fault Fault.endless
        | some none ↦ keep_running cur s
        | some (some p) ↦ dispatch cur p s
      ]
      else fault Fault.endless

  unfoldable pub schedule : Cmd Threads (Unit {0})
  schedule s = elim (get_running_progress s) [ none ↦ ok (tt, s) | some cur ↦ schedule_from cur s ]

  -- `thread_block` of thread `now`, up to the switch if there is one.
  unfoldable pub block_from : ℕ → Cmd Threads (Unit {0})
  unfolding after_block
  block_from now = cli_condition >>= λ condition s1.
      (schedule >> after_block now condition)
        (put now (record (s1.tcbs now) { task_status = blocked }) s1)

  -- A blocking call needs a current thread: its field is written with no test.
  unfoldable pub thread_block : Cmd Threads (Unit {0})
  thread_block s = elim (get_running_progress s) [
    | none ↦ fault Fault.null_pointer
    | some now ↦ block_from now s
  ]

  unfoldable pub timer_server_func : Cmd Threads (Unit {0})
  timer_server_func s = elim s.cur [
    | none ↦ fault Fault.null_pointer
    | some cur ↦
        let t = s.tcbs cur in
        if t.time_left == 0
        then schedule s
        else ok (
          tt,
          put cur
              (record t { time_left = t.time_left - 1; time_counter = u32 (t.time_counter + 1) }) s,
        )
  ]

-- The status of the current thread is read, so there has to be one.
unfoldable pub thread_wakeup : ℕ → Cmd Threads (Unit {0})
thread_wakeup target s0 = elim (get_running_progress s0) [
  | none ↦ fault Fault.null_pointer
  | some _ ↦
      (cli_condition >>= λ condition s.
      sti_condition condition (put target (record (s.tcbs target) { task_status = ready }) s))
        s0
]

-- `create_TCB`: fields that it does not set keep what the page held.
unfoldable pub create_tcb : ℕ → ℕ → ℕ → Threads → Threads
create_tcb tid page_addr page_counte s =
    put page_addr
      (record (s.tcbs page_addr) {
        tid = tid;
        time_counter = 0;
        time_left = time_cont;
        task_status = ready;
        page_counte = page_counte;
        page_addr = page_addr;
        kern_stack_top = u32 (page_addr + u32 (page_counte * 4096));
        magic = magic_number;
      })
      s

abbrev push : ℕ → ℕ → Threads → Threads
push a word s =
    let t = s.tcbs a in
    let top = sub32 t.kern_stack_top 4 in
    put a (record t { kern_stack_top = top }) (record s { stack = update s.stack top word })

-- `create_thread` with the current thread `cur`; `exit_addr` is the address of `exit`. For a kernel
-- thread the page directory is left as it is.
unfoldable pub created : ℕ → ℕ → ℕ → ℕ → ℕ → ℕ → Bool → ℕ → ℕ → Threads → Threads
unfolding create_tcb
created exit_addr tid func args addr page_counte is_kern_thread pdt_vaddr cur s0 =
    let s = create_tcb tid addr page_counte (record s0 { int_flag = false }) in
    let temp_next = (s.tcbs cur).next in
    let s1 = put cur (record (s.tcbs cur) { next = addr }) s in
    let s2 =
      put addr (record (s1.tcbs addr) { next = temp_next; is_kern_thread = is_kern_thread }) s1 in
    let s3 =
      if is_kern_thread
      then s2
      else put addr (record (s2.tcbs addr) { pdt_vaddr = pdt_vaddr }) s2 in
    let s4 = push addr func (push addr exit_addr (push addr args s3)) in
    let t = s4.tcbs addr in
    put addr (record t { eflags = 0x202; esp = t.kern_stack_top })
      (record s4 { int_flag = true; count = s4.count + 1 })

unfoldable pub create_thread : ℕ → ℕ → ℕ → ℕ → ℕ → ℕ → Bool → ℕ → Cmd Threads (Unit {0})
create_thread exit_addr tid func args addr page_counte is_kern_thread pdt_vaddr s0 = elim s0.cur [
  | none ↦ fault Fault.null_pointer
  | some cur ↦
      ok (tt, created exit_addr tid func args addr page_counte is_kern_thread pdt_vaddr cur s0)
]

-- for(; temp->next != cur_tcb; temp = temp->next);
unfoldable pub find_prev : ℕ → (ℕ → Tcb) → ℕ → ℕ → Option ℕ
find_prev zero tcbs cur temp = none
find_prev (suc fuel) tcbs cur temp =
    let further = find_prev fuel tcbs cur (tcbs temp).next in
    if (tcbs temp).next == cur then some temp else further

unfoldable pub remove_from : ℕ → Cmd Threads (Unit {0})
remove_from cur s =
    if (s.tcbs cur).tid == 0 then ok (tt, s) else elim (find_prev s.count s.tcbs cur cur) [
      | none ↦ fault Fault.endless
      | some temp ↦ ok (tt, put temp (record (s.tcbs temp) { next = (s.tcbs cur).next }) s)
    ]

-- What `exit` does after `remove_thread`.
unfoldable pub leave : ℕ → Threads → Threads
leave cur s =
    let next = (s.tcbs cur).next in
    put next (record (s.tcbs next) { time_left = time_cont }) (record s { cur = some next })

-- `exit` of the thread `cur`; `remove_thread` closes the interrupts.
unfoldable pub exit_from : ℕ → Cmd Threads (Unit {0})
unfolding remove_from leave
exit_from cur s = (remove_from cur >>= λ _ t. ok (tt, leave cur t)) (record s { int_flag = false })

-- `exit`: the first access is to the current thread's number.
unfoldable pub exit : Cmd Threads (Unit {0})
exit s = elim s.cur [ none ↦ fault Fault.null_pointer | some cur ↦ exit_from cur s ]
