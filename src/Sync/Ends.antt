-- ===== src/Sync/Ends.antt =====
-- What the calls on a lock leave of its value and holder, if they end.
use bhos.Common.{
  ℕ, ◌+◌, ◌-◌, ◌≡◌, refl, ◌∙◌, ap, Bool, true, false, Bool-cases, Option, none, some, inl, inr,
  ◌==◌, u32, update, Outcome, ok, fault, Fault, ◌&&◌, Cmd, pure, ◌>>=◌, ◌>>◌, if◌then◌else◌,
}
use bhos.Threads.{Threads, thread_block, thread_wakeup, cli_condition, sti_condition}
use bhos.Threads.Schedule.{cli_condition_lem}
use bhos.Sync.{
  WaitQueue, Sync, on_threads, sem_V, sem_P, wake, wake_first, wait, holds, take_lock, lock_acquire,
  lock_release, sync_tool_add, sync_tool_get, sync_tool_is_empty,
}
use bhos.Sync.Sem.{closed, sem_P-pass, sem_P-zero}

-- What holds of value and state if the command ends without a fault.
abbrev pub Ends : {A : Type 0} → (A → Sync → Type 0) → Outcome (A × Sync) → Type 0
Ends P (ok r) = P r.0 r.1
Ends P (fault e) = Unit

Ends-bind :
    {A B : Type 0} (P : A → Sync → Type 0) (Q : B → Sync → Type 0) (r : Outcome (A × Sync))
    (f : A → Cmd Sync B)
    → Ends P r
    → ((a : A) (t : Sync) → P a t → Ends Q (f a t))
    → Ends Q (elim r [ ok (a, t) ↦ f a t | fault e ↦ fault e ])
Ends-bind P Q (ok (a, t)) f h k = k a t h
Ends-bind P Q (fault e) f h k = tt

-- Value and holder are those of `s`.
abbrev pub IsSame : {A : Type 0} → Sync → A → Sync → Type 0
IsSame s _ t = (t.val ≡ s.val) × (t.holder ≡ s.holder)

threads-Ends :
    {A : Type 0} (s : Sync) (r : Outcome (A × Threads))
    → Ends (IsSame s) (elim r [ fault e ↦ fault e | ok q ↦ ok (q.0, record s { threads = q.1 }) ])
threads-Ends s (ok q) = (refl, refl)
threads-Ends s (fault e) = tt

pub on_threads-Ends : {A : Type 0} (m : Cmd Threads A) (s : Sync) → Ends (IsSame s) (on_threads m s)
on_threads-Ends m s = threads-Ends s (m s.threads)

pub Ends-map :
    {A : Type 0} (P Q : A → Sync → Type 0) (r : Outcome (A × Sync))
    → ((a : A) (t : Sync) → P a t → Q a t)
    → Ends P r
    → Ends Q r
Ends-map P Q (ok r) k h = k r.0 r.1 h
Ends-map P Q (fault e) k h = tt

wake-Ends : (r : Option ℕ × WaitQueue) (s : Sync) → Ends (IsSame s) (wake r s)
unfolding wake
wake-Ends (none, queue) s = (refl, refl)
wake-Ends (some node, queue) s =
    on_threads-Ends (thread_wakeup (queue.thread node)) (record s { wait_queue = queue })

wake_first-Ends : (s : Sync) → Ends (IsSame s) (wake_first s)
unfolding wake_first
wake_first-Ends s = elim (Bool-cases (sync_tool_is_empty s.wait_queue)) [
  | inl e ↦ rw e (refl, refl)
  | inr e ↦ rw e (wake-Ends (sync_tool_get s.wait_queue) s)
]

-- The value after `sem_V`.
abbrev IsRaised : Sync → Unit {0} → Sync → Type 0
IsRaised s _ t = (t.val ≡ u32 (s.val + 1)) × (t.holder ≡ s.holder)

sem_V-Ends : (s : Sync) → Ends (IsRaised s) (sem_V s)
unfolding sem_V
sem_V-Ends s =
    Ends-bind (IsSame s) (IsRaised s) (on_threads cli_condition s)
      (λ condition. wake_first >> λ u.
        on_threads (sti_condition condition) (record u { val = u32 (u.val + 1) }))
      (on_threads-Ends cli_condition s)
      (λ condition t first.
        Ends-bind (IsSame t) (IsRaised s) (wake_first t)
          (λ _ u. on_threads (sti_condition condition) (record u { val = u32 (u.val + 1) }))
          (wake_first-Ends t)
          (λ _ u second.
            let raised : Sync = record u { val = u32 (u.val + 1) } in
            Ends-map (IsSame raised) (IsRaised s) (on_threads (sti_condition condition) raised)
              (λ _ v last. (
                last.0 ∙ ap (λ (n : ℕ). u32 (n + 1)) (second.0 ∙ first.0),
                last.1 ∙ second.1 ∙ first.1,
              ))
              (on_threads-Ends (sti_condition condition) raised)))

-- `sem_P` returns only with a positive value, which it counts down.
abbrev HasPassed : Sync → Bool → Sync → Type 0
HasPassed s done t =
    (t.holder ≡ s.holder)
    × (t.threads.cur ≡ (if done then s.threads.cur else t.threads.cur))
    × (t.val ≡ (if done then s.val - 1 else s.val))
    × ((done && (s.val == 0)) ≡ false)

-- The holder after `sem_P` and `take_lock`.
abbrev pub HasTaken : Sync → Bool → Sync → Type 0
HasTaken s done t =
    (t.holder ≡ (if done then s.threads.cur else s.holder))
    × (t.val ≡ (if done then s.val - 1 else s.val))
    × ((done && (s.val == 0)) ≡ false)

abbrev HasWaited : Sync → Bool → Sync → Type 0
HasWaited s done t = (done ≡ false) × IsSame s done t

module _ (v2p : ℕ → ℕ) (kern_dir : ℕ) where
  block-Ends :
      (s : Sync) → Ends (HasWaited s) ((on_threads (thread_block v2p kern_dir) >> pure false) s)
  block-Ends s =
      Ends-bind (IsSame s) (HasWaited s) (on_threads (thread_block v2p kern_dir) s)
        (λ _. pure false) (on_threads-Ends (thread_block v2p kern_dir) s) (λ _ t same. (refl, same))

  enter-Ends :
      (s : Sync) (r : Outcome (Unit {0} × WaitQueue))
      → Ends (HasWaited s) (elim r [
        | fault e ↦ fault e
        | ok q ↦
            (on_threads (thread_block v2p kern_dir) >> pure false) (record s { wait_queue = q.1 })
      ])
  enter-Ends s (ok q) = block-Ends (record s { wait_queue = q.1 })
  enter-Ends s (fault e) = tt

  wait_from :
      (node : ℕ) (s : Sync) (cur : Option ℕ)
      → Ends (HasWaited s) (elim cur [
        | none ↦ fault Fault.null_pointer
        | some c ↦
            elim (sync_tool_add node
              (record s.wait_queue { thread = update s.wait_queue.thread node c })) [
                | fault e ↦ fault e
                | ok r ↦
                    (on_threads (thread_block v2p kern_dir) >> pure false)
                      (record s { wait_queue = r.1 })
              ]
      ])
  wait_from node s none = tt
  wait_from node s (some c) =
      enter-Ends s
        (sync_tool_add node (record s.wait_queue { thread = update s.wait_queue.thread node c }))

  wait-Ends : (node : ℕ) (s : Sync) → Ends (HasWaited s) (wait v2p kern_dir node s)
  unfolding wait
  wait-Ends node s = wait_from node s s.threads.cur

  sem_P-Ends : (node : ℕ) (s : Sync) → Ends (HasPassed s) (sem_P v2p kern_dir node s)
  sem_P-Ends node s = elim (Bool-cases (s.val == 0)) [
    | inr e ↦ rw (sem_P-pass v2p kern_dir s node e) (refl, refl, refl, e)
    | inl e ↦ rw (sem_P-zero v2p kern_dir s node e) (
        Ends-map (HasWaited (closed s)) (HasPassed s) (wait v2p kern_dir node (closed s))
          (λ done t w. rw w.0 (w.1.1, refl, w.1.0, refl)) (wait-Ends node (closed s)))
  ]

  take-Ends :
      (s : Sync) (condition done : Bool) (t : Sync)
      → HasPassed s done t
      → Ends (HasTaken s) (take_lock condition done t)
  unfolding take_lock
  take-Ends s condition false t p = (p.0, p.2, p.3)
  take-Ends s condition true t p =
      let taken : Sync = record t { holder = t.threads.cur } in
      Ends-bind (IsSame taken) (HasTaken s) (on_threads (sti_condition condition) taken)
        (λ _. pure true) (on_threads-Ends (sti_condition condition) taken)
        (λ _ u same. (same.1 ∙ p.1, same.0 ∙ p.2, p.3))

  -- The rest of `lock_acquire`, also of one that waited.
  pub loop-Ends :
      (node : ℕ) (condition : Bool) (s : Sync)
      → Ends (HasTaken s) ((sem_P v2p kern_dir node >>= take_lock condition) s)
  loop-Ends node condition s =
      Ends-bind (HasPassed s) (HasTaken s) (sem_P v2p kern_dir node s) (take_lock condition)
        (sem_P-Ends node s) (take-Ends s condition)

  pub acquire_loop :
      (node : ℕ) (s : Sync)
      → holds s.holder s.threads.cur ≡ false
      → lock_acquire v2p kern_dir node s
        ≡ (sem_P v2p kern_dir node >>= take_lock s.threads.int_flag) (closed s)
  unfolding lock_acquire
  acquire_loop node s other =
      rw (lock_acquire, ◌>>=◌, on_threads, cli_condition_lem s.threads, other) refl

-- What `lock_release` of the holder does to value and holder.
abbrev pub IsReleased : Sync → Unit {0} → Sync → Type 0
IsReleased s _ t = (t.val ≡ u32 (s.val + 1)) × (t.holder ≡ none)

pub release-Ends :
    (s : Sync) → holds s.holder s.threads.cur ≡ true → Ends (IsReleased s) (lock_release s)
unfolding lock_release
release-Ends s own =
    let freed : Sync = record (closed s) { holder = none } in
    let ends =
      Ends-bind (IsRaised freed) (IsReleased s) (sem_V freed)
        (λ _. on_threads (sti_condition s.threads.int_flag)) (sem_V-Ends freed)
        (λ _ t raised.
          Ends-map (IsSame t) (IsReleased s) (on_threads (sti_condition s.threads.int_flag) t)
            (λ _ u same. (same.0 ∙ raised.0, same.1 ∙ raised.1))
            (on_threads-Ends (sti_condition s.threads.int_flag) t)) in
    rw (lock_release, ◌>>=◌, on_threads, cli_condition_lem s.threads, own) ends
