-- ===== src/Link/Locked.antt =====
-- A list with a lock: the two initialisations of libs/utils/list.c, and the insertions and removals with
-- `_lock_acquire` and `_lock_release`. A walk along the list comes before the lock is taken, as in the
-- source. The value `none` of an operation says that the thread waits for the lock and nothing has changed.
pub mod Same
use bhos.Common.{
  ℕ, Bool, true, false, Option, none, some, if◌then◌else◌, update, ok, fault, Fault, Cmd, pure,
  ◌>>=◌,
}
use bhos.Chain.{last_node}
use bhos.Sync.{Sync, lock_init}
use bhos.Sync.Guarded.{lock_acquire_if, lock_release_if}
use bhos.Link.{Link, link_add_head, find_previous}

-- link_t
pub record LockedLink : Type 0 where
  pub link : Link
  pub have_lock : Bool
  pub lock_init_flag : Bool
  pub lock : Sync

unfoldable pub link_init_without_lock : LockedLink → LockedLink
link_init_without_lock s = record s { have_lock = false; lock_init_flag = false }

unfoldable pub link_init_lock : LockedLink → LockedLink
link_init_lock s = record s { have_lock = true; lock = lock_init s.lock; lock_init_flag = true }

module _ (v2p : ℕ → ℕ) (kern_dir node_addr : ℕ) where
  -- A change of the list between `_lock_acquire` and `_lock_release`.
  unfoldable pub under_lock : (Link → Link) → Cmd LockedLink Bool
  under_lock change s = elim (lock_acquire_if v2p kern_dir node_addr s.lock_init_flag s.lock) [
    | fault e ↦ fault e
    | ok (false, lock) ↦ ok (false, record s { lock = lock })
    | ok (true, lock) ↦ elim (lock_release_if s.lock_init_flag lock) [
      | fault e ↦ fault e
      | ok r ↦ ok (true, record s { link = change s.link; lock = r.1 })
    ]
  ]

  unfoldable pub add_tail_locked : ℕ → Cmd LockedLink Bool
  unfolding under_lock
  add_tail_locked node s = elim s.link.head [
    | none ↦ under_lock (λ link. record link { head = some node }) s
    | some header ↦ elim (last_node s.link.count s.link.next header) [
      | none ↦ fault Fault.endless
      | some probe ↦
          under_lock (λ link. record link { next = update link.next probe (some node) }) s
    ]
  ]

  unfoldable pub add_head_locked : ℕ → Cmd LockedLink Bool
  unfolding under_lock
  add_head_locked node = under_lock (link_add_head node)

  -- The answer of a removal that has not to wait.
  abbrev pub answered : Bool → Option Bool
  answered done = if done then some true else none

  unfoldable pub remove_next_locked : ℕ → Cmd LockedLink (Option Bool)
  unfolding under_lock
  remove_next_locked node s = elim (s.link.next node) [
    | none ↦ ok (some false, s)
    | some _ ↦
        (under_lock (λ link. record link { next = update link.next node none }) >>= λ done.
        pure (answered done))
          s
  ]

  unfoldable pub remove_locked : (ℕ → Bool) → Cmd LockedLink (Option Bool)
  unfolding remove_next_locked
  remove_locked test s = elim s.link.head [
    | none ↦ ok (some false, s)
    | some header ↦ elim (find_previous test s.link.count s.link.next header) [
      | none ↦ fault Fault.endless
      | some none ↦ ok (some false, s)
      | some (some probe) ↦ remove_next_locked probe s
    ]
  ]
