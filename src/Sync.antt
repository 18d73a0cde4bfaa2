-- ===== src/Sync.antt =====
-- Semaphores and locks: kernel/modules/sync/sync.c and include/sync.h, with one semaphore and one lock
-- that stands on it.
--
-- A node of the wait queue is the number that is its address. The walk to the end of the queue gets
-- `nodes` rounds. A P operation that has to wait gives the processor away inside `thread_block`; the
-- model follows it up to there, and the value false says that its loop goes on when the thread runs
-- again. `node` is the address of the local variable `node` of `sem_P`.
pub mod Queue
pub mod Sem
pub mod Lock
pub mod System
pub mod Ends
pub mod Exclusion
pub mod Guarded
use bhos.Common.{
  ℕ, ◌+◌, ◌-◌, Bool, true, false, Option, none, some, ◌==◌, if◌then◌else◌, u32, update, ok, fault,
  Fault, Cmd, pure, ◌>>=◌, ◌>>◌,
}
use bhos.Chain.{Links, last_node}
use bhos.Threads.{
  Threads, get_running_progress, cli_condition, sti_condition, thread_block, thread_wakeup,
}

pub record WaitQueue : Type 0 where
  pub head : Option ℕ
  pub next : Links
  pub thread : ℕ → ℕ
  pub nodes : ℕ

unfoldable pub sync_tool_sem_init_queue : WaitQueue → WaitQueue
sync_tool_sem_init_queue queue = record queue { head = none }

unfoldable pub sync_tool_get : WaitQueue → Option ℕ × WaitQueue
sync_tool_get queue = elim queue.head [
  | none ↦ (none, queue)
  | some probe ↦
      (some probe, record queue { head = queue.next probe; next = update queue.next probe none })
]

unfoldable pub sync_tool_add : ℕ → Cmd WaitQueue (Unit {0})
sync_tool_add node queue =
    let cleared = update queue.next node none in
    elim queue.head [
      | none ↦ ok (tt, record queue { head = some node; next = cleared })
      | some header ↦ elim (last_node queue.nodes cleared header) [
        | none ↦ fault Fault.endless
        | some probe ↦ ok (tt, record queue { next = update cleared probe (some node) })
      ]
    ]

unfoldable pub sync_tool_is_empty : WaitQueue → Bool
sync_tool_is_empty queue = elim queue.head [ none ↦ true | some _ ↦ false ]

-- sem_t and lock_t, with the threads.
pub record Sync : Type 0 where
  pub threads : Threads
  pub val : ℕ
  pub wait_queue : WaitQueue
  pub holder : Option ℕ

abbrev pub on_threads : {A : Type 0} → Cmd Threads A → Cmd Sync A
on_threads m s = elim (m s.threads) [
  | fault e ↦ fault e
  | ok r ↦ ok (r.0, record s { threads = r.1 })
]

unfoldable pub sem_init : ℕ → Sync → Sync
sem_init val s = record s { val = val; wait_queue = sync_tool_sem_init_queue s.wait_queue }

unfoldable pub lock_init : Sync → Sync
lock_init s = record (sem_init 1 s) { holder = none }

-- The node that `sync_tool_get` gives is not NULL, or nothing happens.
unfoldable pub wake : Option ℕ × WaitQueue → Cmd Sync (Unit {0})
wake (none, queue) s = ok (tt, record s { wait_queue = queue })
wake (some node, queue) s =
    on_threads (thread_wakeup (queue.thread node)) (record s { wait_queue = queue })

-- The waiting thread that `sem_V` takes out of the queue and wakes, if there is one.
unfoldable pub wake_first : Cmd Sync (Unit {0})
unfolding wake
wake_first s =
    if sync_tool_is_empty s.wait_queue then ok (tt, s) else wake (sync_tool_get s.wait_queue) s

unfoldable pub sem_V : Cmd Sync (Unit {0})
unfolding wake_first
sem_V = on_threads cli_condition >>= λ condition.
    wake_first >> λ s. on_threads (sti_condition condition) (record s { val = u32 (s.val + 1) })

-- lock->holder == get_running_progress()
abbrev pub holds : Option ℕ → Option ℕ → Bool
holds none none = true
holds (some a) (some b) = a == b
holds _ _ = false

-- What `lock_acquire` does when `sem_P` has returned.
unfoldable pub take_lock : Bool → Bool → Cmd Sync Bool
take_lock condition done s =
    if done
    then (on_threads (sti_condition condition) >> pure true)
        (record s { holder = get_running_progress s.threads })
    else ok (false, s)

module _ (v2p : ℕ → ℕ) (kern_dir : ℕ) where
  -- `node` joins the queue for the current thread, which then blocks.
  unfoldable pub wait : ℕ → Cmd Sync Bool
  unfolding sync_tool_add
  wait node s = elim (get_running_progress s.threads) [
    | none ↦ fault Fault.null_pointer
    | some cur ↦
        elim (sync_tool_add node
          (record s.wait_queue { thread = update s.wait_queue.thread node cur })) [
            | fault e ↦ fault e
            | ok r ↦
                (on_threads (thread_block v2p kern_dir) >> pure false)
                  (record s { wait_queue = r.1 })
          ]
  ]

  -- One turn of the loop of `sem_P`, and what follows the loop when the turn ends it.
  unfoldable pub sem_P : ℕ → Cmd Sync Bool
  unfolding wait
  sem_P node = on_threads cli_condition >>= λ condition s.
      if s.val == 0
      then wait node s
      else (on_threads (sti_condition condition) >> pure true) (record s { val = s.val - 1 })

  unfoldable pub lock_acquire : ℕ → Cmd Sync Bool
  unfolding sem_P take_lock
  lock_acquire node = on_threads cli_condition >>= λ condition s.
      if holds s.holder (get_running_progress s.threads)
      then (on_threads (sti_condition condition) >> pure true) s
      else (sem_P node >>= take_lock condition) s

unfoldable pub lock_release : Cmd Sync (Unit {0})
unfolding sem_V
lock_release = on_threads cli_condition >>= λ condition s.
    if holds s.holder (get_running_progress s.threads)
    then (sem_V >> on_threads (sti_condition condition)) (record s { holder = none })
    else on_threads (sti_condition condition) s
