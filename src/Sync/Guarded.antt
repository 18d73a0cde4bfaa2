-- ===== src/Sync/Guarded.antt =====
-- A lock that is used when a flag says so: `_lock_acquire` and `_lock_release` of libs/utils/list.c.
use bhos.Common.{arith, ℕ, ◌≡◌, refl, Bool, true, false, none, some, List, if◌then◌else◌, Cmd, ok}
use bhos.Sync.{Sync, lock_acquire, lock_release}
use bhos.Sync.Queue.{IsQueue}
use bhos.Sync.Lock.{IsLock-one, IsLock-zero, lock_acquire-free, lock_release-IsLock, taken}

-- The value false says that the thread waits for the lock.
unfoldable pub lock_acquire_if : (ℕ → ℕ) → ℕ → ℕ → Bool → Cmd Sync Bool
lock_acquire_if v2p kern_dir node flag s =
    if flag then lock_acquire v2p kern_dir node s else ok (true, s)

unfoldable pub lock_release_if : Bool → Cmd Sync (Unit {0})
lock_release_if flag s = if flag then lock_release s else ok (tt, s)

-- A thread runs, and the lock is free with value 1, whoever stands in its queue.
pub record IsFree (s : Sync) (c : ℕ) (ns : List ℕ) : Type 0 where
  pub current : s.threads.cur ≡ some c
  pub unheld : s.holder ≡ none
  pub one : s.val ≡ 1
  pub queue : IsQueue s.wait_queue ns

-- A free lock that is in use is taken and given back, and is free again; one that is not in use, whatever
-- it holds, is left alone.
pub lock_if-free :
    (v2p : ℕ → ℕ) (kern_dir node c : ℕ) (ns : List ℕ) (flag : Bool) (s : Sync)
    → (flag ≡ true → IsFree s c ns)
    → (held : Sync) × (t : Sync) × (lock_acquire_if v2p kern_dir node flag s ≡ ok (true, held))
      × (lock_release_if flag held ≡ ok (tt, t))
      × (flag ≡ true → (t.holder ≡ none) × (t.val ≡ 1))
      × (flag ≡ false → t ≡ s)
unfolding lock_acquire_if lock_release_if
lock_if-free v2p kern_dir node c ns false s free =
    (s, s, refl, refl, (λ e. absurd (ground (arith, e))), (λ _. refl))
lock_if-free v2p kern_dir node c ns true s usable =
    let free = usable refl in
    let (_, t, last, (unheld, fine, _, _, _)) =
      lock_release-IsLock (taken s) c ns free.current free.current
        (IsLock-zero (taken s) c free.current refl) free.queue in
    (
      taken s,
      t,
      lock_acquire-free v2p kern_dir node c s free.current free.unheld free.one,
      last,
      (λ _. (unheld, IsLock-one t unheld fine)),
      (λ e. absurd (ground (arith, e))),
    )
