-- ===== src/Tests/SyncTests.antt =====
-- Semaphores and locks, kernel/modules/sync/sync.c, with the three threads of ThreadsTests; nodes 0x90 and
-- 0xA0, of the threads 0x20 and 0x30, may wait.
use bhos.Common.{ℕ, ◌≡◌, ◌≢◌, refl, arith, true, false, none, some, [], ◌∷◌, has, update, Returns}
use bhos.Threads.{is_ready, is_running}
use bhos.Threads.Ring.{first_ready}
use bhos.Tests.ThreadsTests.{machine, no_pages, machine-IsCurrent}
use bhos.Sync.{WaitQueue, Sync, sem_V, sem_P}
use bhos.Sync.Queue.{IsQueue}
use bhos.Sync.Guarded.{IsFree}
use bhos.Sync.Sem.{sem_V-first, sem_P-wait}

abbrev pub queue : WaitQueue
queue = record {
  head = some 0x90;
  next = update (λ _. none) 0x90 (some 0xA0);
  thread = update (λ _. 0x30) 0x90 0x20;
  nodes = 5;
}

queue-IsQueue : IsQueue queue (0x90 ∷ 0xA0 ∷ [])
queue-IsQueue = record {
  chain = (refl, (refl, refl));
  distinct = (refl, (refl, tt));
  counted = omega arith;
}

abbrev pub held : Sync
held = record { threads = machine; val = 0; wait_queue = queue; holder = some 0x10 }

abbrev pub free_lock : Sync
free_lock = record held { val = 1; holder = none }

pub free_lock-IsFree : IsFree free_lock 0x10 (0x90 ∷ 0xA0 ∷ [])
free_lock-IsFree = record { current = refl; unheld = refl; one = refl; queue = queue-IsQueue }

sem_V-first_example :
    Returns
      (λ _ t.
        (t.val ≡ 1)
        × IsQueue t.wait_queue (0xA0 ∷ [])
        × (is_ready (t.threads.tcbs 0x20).task_status ≡ true)
        × ((b : ℕ) → b ≢ 0x20 → t.threads.tcbs b ≡ machine.tcbs b)
        × (t.threads.cur ≡ some 0x10)
        × (t.threads.int_flag ≡ true)
        × (t.holder ≡ some 0x10))
      (sem_V held)
sem_V-first_example = sem_V-first held 0x10 0x90 (0xA0 ∷ []) refl queue-IsQueue

sem_P-wait_example :
    Returns
      (λ r t.
        (r ≡ false)
        × (t.val ≡ 0)
        × IsQueue t.wait_queue (0x90 ∷ 0xA0 ∷ 0xB0 ∷ [])
        × (t.wait_queue.thread 0xB0 ≡ 0x10)
        × (t.threads.cur ≡ some 0x30)
        × (is_running (t.threads.tcbs 0x30).task_status ≡ true)
        × ((a : ℕ)
            → a ≢ 0x30
            → has a (0x10 ∷ 0x20 ∷ 0x30 ∷ []) ≡ true
            → is_running (t.threads.tcbs a).task_status ≡ false))
      (sem_P no_pages 0x5000 0xB0 held)
unfolding first_ready
sem_P-wait_example =
    sem_P-wait no_pages 0x5000 held 0xB0 0x10 0x30 (0x20 ∷ 0x30 ∷ []) (0x90 ∷ 0xA0 ∷ []) refl
      machine-IsCurrent refl queue-IsQueue refl (omega arith)
