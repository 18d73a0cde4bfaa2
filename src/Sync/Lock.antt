-- ===== src/Sync/Lock.antt =====
-- The lock: what holds between its value and its holder.
use bhos.Common.{
  ℕ, ◌+◌, ◌-◌, ◌≡◌, refl, sym, ◌∙◌, ap, arith, true, false, Option, none, some, List, [], ◌∷◌, ◌==◌,
  u32, Returns, ok, ◌>>=◌, ◌>>◌,
}
use mathlib.Core.Path.{subst}
use bhos.Threads.Schedule.{cli_condition_lem, sti_condition_lem}
use bhos.Sync.{Sync, on_threads, sem_V, holds, take_lock, lock_acquire, lock_release}
use bhos.Sync.Queue.{IsQueue, is_empty-none}
use bhos.Sync.Sem.{sem_V-first, closed, sem_P-pass, sem_V-none}

-- The lock is free with value 1, or a thread holds it and the value is 0.
abbrev pub IsLock : Sync → Type 0
IsLock s = elim s.holder [ none ↦ s.val ≡ 1 | some _ ↦ s.val ≡ 0 ]

-- The nodes that wait when the first one has left.
abbrev pub behind : List ℕ → List ℕ
behind [] = []
behind (x ∷ xs) = xs

pub IsLock-free : (s : Sync) → s.holder ≡ none → s.val ≡ 1 → IsLock s
IsLock-free s free one =
    subst (λ (o : Option ℕ). elim o [ none ↦ s.val ≡ 1 | some _ ↦ s.val ≡ 0 ]) (sym free) one

pub IsLock-held : (s : Sync) (c : ℕ) → s.holder ≡ some c → IsLock s → s.val ≡ 0
IsLock-held s c held lock =
    subst (λ (o : Option ℕ). elim o [ none ↦ s.val ≡ 1 | some _ ↦ s.val ≡ 0 ]) held lock

pub IsLock-one : (s : Sync) → s.holder ≡ none → IsLock s → s.val ≡ 1
IsLock-one s free lock =
    subst (λ (o : Option ℕ). elim o [ none ↦ s.val ≡ 1 | some _ ↦ s.val ≡ 0 ]) free lock

pub IsLock-zero : (s : Sync) (c : ℕ) → s.holder ≡ some c → s.val ≡ 0 → IsLock s
IsLock-zero s c held zero_val =
    subst (λ (o : Option ℕ). elim o [ none ↦ s.val ≡ 1 | some _ ↦ s.val ≡ 0 ]) (sym held) zero_val

abbrev pub taken : Sync → Sync
taken s = record s { val = 0; holder = s.threads.cur }

abbrev released : Sync → Sync
released s = record s { val = 1; holder = none }

-- The turns of `lock_acquire` and `lock_release` by who holds the lock.
pub acquire-other :
    (v2p : ℕ → ℕ) (kern_dir node : ℕ) (s : Sync)
    → holds s.holder s.threads.cur ≡ false
    → (s.val == 0) ≡ false
    → lock_acquire v2p kern_dir node s
      ≡ ok (true, record s { val = s.val - 1; holder = s.threads.cur })
unfolding lock_acquire take_lock
acquire-other v2p kern_dir node s other positive =
    rw
      (
        ◌>>=◌,
        on_threads,
        cli_condition_lem s.threads,
        other,
        sem_P-pass v2p kern_dir (closed s) node positive,
        take_lock,
        ◌>>◌,
        sti_condition_lem (closed s).threads s.threads.int_flag,
      )
      refl

release-own :
    (s u : Sync)
    → holds s.holder s.threads.cur ≡ true
    → sem_V (record (closed s) { holder = none }) ≡ ok (tt, u)
    → lock_release s
      ≡ ok (tt, record u { threads = record u.threads { int_flag = s.threads.int_flag } })
unfolding lock_release
release-own s u own run =
    rw
      (
        ◌>>=◌,
        on_threads,
        cli_condition_lem s.threads,
        own,
        ◌>>◌,
        run,
        sti_condition_lem u.threads s.threads.int_flag,
      )
      refl

-- A free lock is taken by `lock_acquire` in one go: the current thread holds it, the value is 0, and
-- nothing else changes.
pub lock_acquire-free :
    (v2p : ℕ → ℕ) (kern_dir node c : ℕ) (s : Sync)
    → s.threads.cur ≡ some c
    → s.holder ≡ none
    → s.val ≡ 1
    → lock_acquire v2p kern_dir node s ≡ ok (true, taken s)
lock_acquire-free v2p kern_dir node c s cur free one =
    acquire-other v2p kern_dir node s (λ j. holds (free j) (cur j)) (ground arith)
    ∙ ap (λ (v : ℕ). ok (true, record s { val = v; holder = s.threads.cur })) (omega arith)

-- `lock_acquire` by the thread that holds the lock returns at once and changes nothing.
pub lock_acquire-own :
    (v2p : ℕ → ℕ) (kern_dir node : ℕ) (s : Sync)
    → holds s.holder s.threads.cur ≡ true
    → lock_acquire v2p kern_dir node s ≡ ok (true, s)
unfolding lock_acquire
lock_acquire-own v2p kern_dir node s own =
    rw
      (
        ◌>>=◌,
        on_threads,
        cli_condition_lem s.threads,
        own,
        ◌>>◌,
        sti_condition_lem (closed s).threads s.threads.int_flag,
      )
      refl

-- `lock_release` by a thread that does not hold the lock changes nothing.
pub lock_release-other :
    (s : Sync) → holds s.holder s.threads.cur ≡ false → lock_release s ≡ ok (tt, s)
unfolding lock_release
lock_release-other s other =
    rw
      (
        ◌>>=◌,
        on_threads,
        cli_condition_lem s.threads,
        other,
        sti_condition_lem (closed s).threads s.threads.int_flag,
      )
      refl

-- `lock_release` of the holder keeps the lock well-formed, whoever waits: it is free with value 1, the
-- first waiting thread, if there is one, has left the queue, the current thread stays current and the
-- interrupt flag is as before. The call ends without a fault.
pub lock_release-IsLock :
    (s : Sync) (c : ℕ) (ns : List ℕ)
    → s.threads.cur ≡ some c
    → s.holder ≡ some c
    → IsLock s
    → IsQueue s.wait_queue ns
    → Returns
        (λ _ t.
          (t.holder ≡ none)
          × IsLock t
          × IsQueue t.wait_queue (behind ns)
          × (t.threads.cur ≡ some c)
          × (t.threads.int_flag ≡ s.threads.int_flag))
        (lock_release s)
lock_release-IsLock s c [] cur own lock queue =
    let mine : holds s.holder s.threads.cur ≡ true = (λ j. holds (own j) (cur j)) ∙ ground arith in
    let run =
      sem_V-none (record (closed s) { holder = none }) (is_empty-none s.wait_queue queue.chain) in
    (
      tt,
      record s { val = u32 (s.val + 1); holder = none },
      release-own s (record (closed s) { val = u32 (s.val + 1); holder = none }) mine run,
      (refl, omega (arith, IsLock-held s c own lock), queue, cur, refl),
    )
lock_release-IsLock s c (x ∷ xs) cur own lock queue =
    let mine : holds s.holder s.threads.cur ≡ true = (λ j. holds (own j) (cur j)) ∙ ground arith in
    let (_, u, run, (count, rest, _, _, same, _, free)) =
      sem_V-first (record (closed s) { holder = none }) c x xs cur queue in
    let one : u.val ≡ 1 = omega (arith, count, IsLock-held s c own lock) in
    (
      tt,
      record u { threads = record u.threads { int_flag = s.threads.int_flag } },
      release-own s u mine run,
      (free, IsLock-free u free one, rest, same ∙ cur, refl),
    )
