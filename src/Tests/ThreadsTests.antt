-- ===== src/Tests/ThreadsTests.antt =====
-- The scheduler, kernel/modules/threads/threads.c, with the threads 0x10, 0x20 and 0x30 in a ring, of
-- which 0x10 runs, 0x20 is blocked and 0x30 is ready.
use bhos.Common.{ℕ, ◌≡◌, ◌≢◌, refl, true, false, some, [], ◌∷◌, arith, has, Returns, update}
use bhos.Threads.{
  Tcb, Threads, TaskStatus, running, ready, blocked, is_running, time_cont, magic_number, schedule,
  thread_block, exit_from, opens,
}
use bhos.Threads.Ring.{RingTo, first_ready}
use bhos.Threads.Schedule.{
  IsCurrent, IsDispatched, chosen, schedule-IsDispatched, thread_block-first_ready,
}
use bhos.Threads.Members.{exit_from-RingTo}

abbrev thread : ℕ → TaskStatus → ℕ → Tcb
thread next status tid = record {
  kern_stack_top = 0x8000;
  task_status = status;
  time_counter = 0;
  time_left = 0;
  next = next;
  tid = tid;
  page_counte = 1;
  page_addr = 0x7000;
  is_kern_thread = true;
  pdt_vaddr = 0;
  eflags = 0x202;
  esp = 0;
  magic = magic_number;
}

abbrev table : ℕ → Tcb
table =
    update (update (λ _. thread 0x10 blocked 9) 0x20 (thread 0x30 blocked 2)) 0x10
      (thread 0x20 running 1)

abbrev pub machine : Threads
machine = record {
  cur = some 0x10;
  tcbs = update table 0x30 (thread 0x10 ready 3);
  stack = λ _. 0;
  int_flag = true;
  cr3 = 0;
  esp0 = 0;
  count = 3;
}

abbrev pub no_pages : ℕ → ℕ
no_pages _ = 0

pub machine-IsCurrent : IsCurrent no_pages machine 0x10 (0x20 ∷ 0x30 ∷ [])
machine-IsCurrent = record {
  cur = refl;
  ring = (refl, (refl, refl));
  alone = refl;
  idle = λ a m. ground arith;
  not_ready = refl;
  sound = refl;
  mapped = λ a. refl;
  counted = omega arith;
}

schedule-IsDispatched_example :
    Returns
      (λ _ t.
        IsDispatched machine t 0x10 (0x20 ∷ 0x30 ∷ []) (chosen machine 0x10 (0x20 ∷ 0x30 ∷ []))
        × (((t.tcbs 0x10).eflags ≡ 0x202) × (t.int_flag ≡ true)))
      (schedule no_pages 0x5000 machine)
unfolding first_ready
schedule-IsDispatched_example =
    schedule-IsDispatched no_pages 0x5000 machine 0x10 (0x20 ∷ 0x30 ∷ []) machine-IsCurrent

chosen_lem : chosen machine 0x10 (0x20 ∷ 0x30 ∷ []) ≡ 0x30
unfolding first_ready
chosen_lem = refl

thread_block-first_ready_example :
    Returns
      (λ _ t.
        (t.cur ≡ some 0x30)
        × (is_running (t.tcbs 0x30).task_status ≡ true)
        × ((a : ℕ)
            → a ≢ 0x30
            → has a (0x10 ∷ 0x20 ∷ 0x30 ∷ []) ≡ true
            → is_running (t.tcbs a).task_status ≡ false)
        × ((b : ℕ) → (t.tcbs b).next ≡ (machine.tcbs b).next)
        × (t.int_flag ≡ true)
        × (opens (t.tcbs 0x10).eflags ≡ false))
      (thread_block no_pages 0x5000 machine)
unfolding first_ready
thread_block-first_ready_example =
    thread_block-first_ready no_pages 0x5000 machine 0x10 (0x20 ∷ 0x30 ∷ []) machine-IsCurrent 0x30
      refl

exit_from-RingTo_example :
    Returns
      (λ _ t.
        (t.cur ≡ some 0x20)
        × RingTo t.tcbs 0x20 0x20 (0x30 ∷ [])
        × ((t.tcbs 0x20).task_status ≡ blocked)
        × ((t.tcbs 0x20).time_left ≡ time_cont))
      (exit_from 0x10 machine)
exit_from-RingTo_example =
    exit_from-RingTo machine 0x10 0x20 (0x30 ∷ []) (refl, (refl, refl)) (refl, (refl, (refl, tt)))
      (omega arith) refl
