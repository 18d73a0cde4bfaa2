-- ===== src/Sync/System.antt =====
-- Threads that share one lock, as a step relation.
--
-- A call runs with the interrupts closed, so that a step is a whole call, or the part of one up to the
-- switch of threads. A thread that waits goes on, when it is current again, with the end of `thread_block`,
-- which it called with the interrupts closed, and with the loop of `sem_P`; the local variables `node` and
-- `condition` that it then has are arguments of the step.
use bhos.Common.{ℕ, ◌≡◌, Bool, true, false, some, update, ok, Cmd, ◌>>=◌, ◌>>◌}
use bhos.Threads.{Threads, sti_condition}
use bhos.Sync.{Sync, on_threads, lock_init, lock_acquire, lock_release, sem_P, take_lock}

-- Where a thread stands: in the loop of `sem_P`, between a return of `lock_acquire` and its next call of
-- `lock_release`, or outside. The lock does not count the calls of its holder: in nested sections the first
-- `lock_release` gives it back, and the rest of the outer section is outside.
pub data Pc : Type 0 where
  outside waiting inside : Pc

abbrev pub is_waiting : Pc → Bool
is_waiting waiting = true
is_waiting _ = false

abbrev pub is_inside : Pc → Bool
is_inside inside = true
is_inside _ = false

pub record System : Type 0 where
  pub sync : Sync
  pub pc : ℕ → Pc

-- After `lock_acquire` has returned, or has given the processor away.
abbrev pub returned : Bool → Pc
returned true = inside
returned false = waiting

module _ (v2p : ℕ → ℕ) (kern_dir : ℕ) where
  pub data Step (s : System) : System → Type 0 where
    acquire :
        (c node : ℕ) (done : Bool) (t : Sync)
        → s.sync.threads.cur ≡ some c
        → is_waiting (s.pc c) ≡ false
        → lock_acquire v2p kern_dir node s.sync ≡ ok (done, t)
        → Step s (record { sync = t; pc = update s.pc c (returned done) })
    resume :
        (c node : ℕ) (condition done : Bool) (t : Sync)
        → s.sync.threads.cur ≡ some c
        → is_waiting (s.pc c) ≡ true
        → (on_threads (sti_condition false) >> (sem_P v2p kern_dir node >>= take_lock condition))
            s.sync
          ≡ ok (done, t)
        → Step s (record { sync = t; pc = update s.pc c (returned done) })
    release :
        (c : ℕ) (t : Sync)
        → s.sync.threads.cur ≡ some c
        → is_waiting (s.pc c) ≡ false
        → lock_release s.sync ≡ ok (tt, t)
        → Step s (record { sync = t; pc = update s.pc c outside })
    -- a timer interrupt, or whatever else is done to the threads
    other :
        (m : Cmd Threads (Unit {0})) (t : Sync)
        → on_threads m s.sync ≡ ok (tt, t)
        → Step s (record s { sync = t })

  pub data Reach (s0 : Sync) : System → Type 0 where
    start : Reach s0 (record { sync = lock_init s0; pc = λ _. outside })
    next : (s t : System) → Reach s0 s → Step s t → Reach s0 t
