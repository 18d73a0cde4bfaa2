-- ===== src/Sync/Sem.antt =====
-- P and V on a semaphore.
use bhos.Common.{
  ℕ, suc, ◌+◌, ◌-◌, ◌<◌, ◌≡◌, ◌≢◌, refl, ◌∙◌, arith, true, false, none, some, List, [], ◌∷◌, ◌++◌,
  length, has, ◌==◌, u32, update, Returns, ok, fault, Fault, pure, ◌>>=◌, ◌>>◌,
}
use bhos.Threads.{Threads, is_ready, is_running, ready, put, thread_block}
use bhos.Threads.Ring.{first_ready}
use bhos.Threads.Schedule.{
  IsCurrent, cli_condition_lem, sti_condition_lem, thread_wakeup-ready, thread_block-first_ready,
}
use bhos.Sync.{
  WaitQueue, Sync, sync_tool_add, sync_tool_is_empty, on_threads, wake, wake_first, sem_V, sem_P,
  wait,
}
use bhos.Sync.Queue.{IsQueue, sync_tool_get_first, sync_tool_add-IsQueue}

abbrev pub closed : Sync → Sync
closed s = record s { threads = record s.threads { int_flag = false } }

abbrev popped : WaitQueue → ℕ → WaitQueue
popped queue x = record queue { head = queue.next x; next = update queue.next x none }

abbrev woken : Threads → ℕ → Threads
woken t a = put a (record (t.tcbs a) { task_status = ready }) t

wake_first-some :
    (s : Sync) (c x : ℕ) (xs : List ℕ)
    → s.threads.cur ≡ some c
    → IsQueue s.wait_queue (x ∷ xs)
    → wake_first s
      ≡ ok (
        tt,
        record s {
          threads = woken s.threads (s.wait_queue.thread x);
          wait_queue = popped s.wait_queue x;
        },
      )
unfolding wake_first
wake_first-some s c x xs cur i =
    let got = sync_tool_get_first s.wait_queue x xs i in
    rw (got.2, got.0, wake, on_threads, thread_wakeup-ready s.threads c (s.wait_queue.thread x) cur)
      refl

wake_first-none : (s : Sync) → sync_tool_is_empty s.wait_queue ≡ true → wake_first s ≡ ok (tt, s)
unfolding wake_first
wake_first-none s e = rw e refl

-- What `sem_V` does around `wake_first`.
sem_V-run :
    (s u : Sync)
    → wake_first (closed s) ≡ ok (tt, u)
    → sem_V s
      ≡ ok (
        tt,
        record u {
          threads = record u.threads { int_flag = s.threads.int_flag };
          val = u32 (u.val + 1);
        },
      )
unfolding sem_V
sem_V-run s u run =
    rw
      (
        ◌>>=◌,
        cli_condition_lem s.threads,
        ◌>>◌,
        run,
        on_threads,
        sti_condition_lem u.threads s.threads.int_flag,
      )
      refl

-- `sem_V` with waiting threads: the value grows by one, the first node leaves the queue and its thread
-- is ready, no other thread is touched, and the interrupt flag and the lock's holder are as before. The call ends
-- without a fault.
pub sem_V-first :
    (s : Sync) (c x : ℕ) (xs : List ℕ)
    → s.threads.cur ≡ some c
    → IsQueue s.wait_queue (x ∷ xs)
    → Returns
        (λ _ t.
          (t.val ≡ u32 (s.val + 1))
          × IsQueue t.wait_queue xs
          × (is_ready (t.threads.tcbs (s.wait_queue.thread x)).task_status ≡ true)
          × ((b : ℕ) → b ≢ s.wait_queue.thread x → t.threads.tcbs b ≡ s.threads.tcbs b)
          × (t.threads.cur ≡ s.threads.cur)
          × (t.threads.int_flag ≡ s.threads.int_flag)
          × (t.holder ≡ s.holder))
        (sem_V s)
sem_V-first s c x xs cur i =
    let u : Sync = record s {
      threads = woken (closed s).threads (s.wait_queue.thread x);
      wait_queue = popped s.wait_queue x;
    } in
    (
      tt,
      record u {
        threads = record u.threads { int_flag = s.threads.int_flag };
        val = u32 (s.val + 1);
      },
      sem_V-run s u (wake_first-some (closed s) c x xs cur i),
      (
        refl,
        (sync_tool_get_first s.wait_queue x xs i).1,
        ground arith,
        (λ b ne. ground arith),
        refl,
        refl,
        refl,
      ),
    )

-- `sem_V` with nobody waiting only counts up.
pub sem_V-none :
    (s : Sync)
    → sync_tool_is_empty s.wait_queue ≡ true
    → sem_V s ≡ ok (tt, record s { val = u32 (s.val + 1) })
sem_V-none s e = sem_V-run s (closed s) (wake_first-none (closed s) e)

module _ (v2p : ℕ → ℕ) (kern_dir : ℕ) where
  -- `sem_P` of a positive value counts down and returns, with the interrupt flag as before.
  pub sem_P-pass :
      (s : Sync) (node : ℕ)
      → (s.val == 0) ≡ false
      → sem_P v2p kern_dir node s ≡ ok (true, record s { val = s.val - 1 })
  unfolding sem_P
  sem_P-pass s node e =
      rw
        (
          ◌>>=◌,
          on_threads,
          cli_condition_lem s.threads,
          e,
          ◌>>◌,
          sti_condition_lem (closed s).threads s.threads.int_flag,
        )
        refl

  closed-IsCurrent :
      (t : Threads) (c : ℕ) (xs : List ℕ)
      → IsCurrent v2p t c xs
      → IsCurrent v2p (record t { int_flag = false }) c xs
  closed-IsCurrent t c xs i = record {
    cur = i.cur;
    ring = i.ring;
    alone = i.alone;
    idle = i.idle;
    not_ready = i.not_ready;
    sound = i.sound;
    mapped = i.mapped;
    counted = i.counted;
  }

  abbrev entered : WaitQueue → ℕ → ℕ → WaitQueue
  entered queue node cur = record queue { thread = update queue.thread node cur }

  wait-some :
      (s : Sync) (node c : ℕ) (q : WaitQueue) (t : Threads)
      → s.threads.cur ≡ some c
      → sync_tool_add node (entered s.wait_queue node c) ≡ ok (tt, q)
      → thread_block v2p kern_dir s.threads ≡ ok (tt, t)
      → wait v2p kern_dir node s ≡ ok (false, record s { threads = t; wait_queue = q })
  unfolding wait
  wait-some s node c q t cur add block =
      (λ j. elim (cur j) [
        | none ↦ fault Fault.null_pointer
        | some k ↦ elim (sync_tool_add node (entered s.wait_queue node k)) [
          | fault e ↦ fault e
          | ok r ↦
              (on_threads (thread_block v2p kern_dir) >> pure false) (record s { wait_queue = r.1 })
        ]
      ])
      ∙ rw (add, ◌>>◌, ◌>>=◌, on_threads, block) refl

  pub sem_P-zero :
      (s : Sync) (node : ℕ)
      → (s.val == 0) ≡ true
      → sem_P v2p kern_dir node s ≡ wait v2p kern_dir node (closed s)
  unfolding sem_P
  sem_P-zero s node e = rw (◌>>=◌, on_threads, cli_condition_lem s.threads, e) refl

  -- `sem_P` of the value 0, with another thread ready: the current thread's node goes to the end of the
  -- queue, the first ready thread is current and alone running, and the value stays. The call reaches
  -- that point without a fault.
  pub sem_P-wait :
      (s : Sync) (node c p : ℕ) (xs ns : List ℕ)
      → (s.val == 0) ≡ true
      → IsCurrent v2p s.threads c xs
      → first_ready s.threads.tcbs xs ≡ some p
      → IsQueue s.wait_queue ns
      → has node ns ≡ false
      → suc (length ns) < s.wait_queue.nodes
      → Returns
          (λ r t.
            (r ≡ false)
            × (t.val ≡ s.val)
            × IsQueue t.wait_queue (ns ++ (node ∷ []))
            × (t.wait_queue.thread node ≡ c)
            × (t.threads.cur ≡ some p)
            × (is_running (t.threads.tcbs p).task_status ≡ true)
            × ((a : ℕ)
                → a ≢ p
                → has a (c ∷ xs) ≡ true
                → is_running (t.threads.tcbs a).task_status ≡ false))
          (sem_P v2p kern_dir node s)
  sem_P-wait s node c p xs ns zero_val i ready_one queue out room =
      let j : IsQueue (entered s.wait_queue node c) ns = record {
        chain = queue.chain;
        distinct = queue.distinct;
        counted = queue.counted;
      } in
      let (_, q, add, (filled, threads, _)) =
        sync_tool_add-IsQueue (entered s.wait_queue node c) ns node j out room in
      let (_, t, block, (cur, on, off, _, _, _)) =
        thread_block-first_ready v2p kern_dir (closed s).threads c xs
          (closed-IsCurrent s.threads c xs i) p ready_one in
      (
        false,
        record s { threads = t; wait_queue = q },
        sem_P-zero s node zero_val ∙ wait-some (closed s) node c q t i.cur add block,
        (refl, refl, filled, (λ j. threads j node) ∙ ground arith, cur, on, off),
      )
