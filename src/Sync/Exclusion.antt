-- ===== src/Sync/Exclusion.antt =====
-- Mutual exclusion by the lock.
use bhos.Common.{
  ℕ, ◌≡◌, refl, sym, ◌∙◌, ap, arith, Bool, true, false, Bool-cases, Option, none, some,
  Option-cases, inl, inr, ◌==◌, update, ok, Cmd, ◌>>=◌, ◌>>◌, ◌&&◌,
}
use bhos.Threads.{sti_condition}
use bhos.Threads.Schedule.{sti_condition_lem}
use bhos.Sync.{
  Sync, on_threads, sem_P, holds, take_lock, lock_init, sem_init, lock_acquire, lock_release,
}
use bhos.Sync.Sem.{closed}
use bhos.Sync.Lock.{
  IsLock, IsLock-free, IsLock-held, IsLock-one, IsLock-zero, lock_acquire-own, lock_release-other,
}
use bhos.Sync.Ends.{
  Ends, Ends-map, HasTaken, IsReleased, IsSame, loop-Ends, acquire_loop, release-Ends,
  on_threads-Ends,
}
use bhos.Sync.System.{
  System, outside, inside, is_inside, returned, Step, acquire, resume, release, other, Reach, start,
  next,
}

-- The lock is well-formed, and a thread between `lock_acquire` and `lock_release` is its holder.
record IsSafe (s : System) : Type 0 where
  lock : IsLock s.sync
  held : (c : ℕ) → is_inside (s.pc c) ≡ true → s.sync.holder ≡ some c

IsLock-same : (s t : Sync) → t.holder ≡ s.holder → t.val ≡ s.val → IsLock s → IsLock t
IsLock-same s t eh ev lock = elim (Option-cases s.holder) [
  | inl free ↦ IsLock-free t (eh ∙ free) (ev ∙ IsLock-one s free lock)
  | inr (h, held) ↦ IsLock-zero t h (eh ∙ held) (ev ∙ IsLock-held s h held lock)
]

-- A thread that takes the lock finds it free.
taken_free : (s t : Sync) → IsLock s → (true && (s.val == 0)) ≡ false → s.holder ≡ none
taken_free s t lock positive = elim (Option-cases s.holder) [
  | inl free ↦ free
  | inr (h, held) ↦ absurd (ground (arith, IsLock-held s h held lock))
]

some_inj : (a b : ℕ) → some a ≡ some b → a ≡ b
some_inj a b e = ap (λ (o : Option ℕ). elim o [ none ↦ a | some x ↦ x ]) e

none_some : (a : ℕ) → none ≡ some a → (A : Type 0) → A
none_some a e A = absurd (ground (arith, e))

holds-some : (o : Option ℕ) (c : ℕ) → holds o (some c) ≡ true → o ≡ some c
holds-some none c h = absurd (ground arith)
holds-some (some a) c h = ap some (ground arith)

taken-IsSafe :
    (s : System) (c : ℕ) (done : Bool) (t : Sync)
    → IsSafe s
    → s.sync.threads.cur ≡ some c
    → HasTaken s.sync done t
    → IsSafe (record { sync = t; pc = update s.pc c (returned done) })
taken-IsSafe s c false t safe cur taken = record {
  lock = IsLock-same s.sync t taken.0 taken.1 safe.lock;
  held = λ d i. taken.0 ∙ safe.held d (ground arith);
}
taken-IsSafe s c true t safe cur taken =
    let free = taken_free s.sync t safe.lock taken.2 in
    let one = IsLock-one s.sync free safe.lock in
    record {
      lock = IsLock-zero t c (taken.0 ∙ cur) (taken.1 ∙ omega arith);
      held = λ d i. elim (Bool-cases (c == d)) [
        | inl e ↦ taken.0 ∙ cur ∙ ap some (ground arith)
        | inr e ↦ none_some d (sym free ∙ safe.held d (ground arith)) (t.holder ≡ some d)
      ];
    }

inside-IsSafe :
    (s : System) (c : ℕ)
    → IsSafe s
    → s.sync.holder ≡ some c
    → IsSafe (record s { pc = update s.pc c inside })
inside-IsSafe s c safe own = record {
  lock = safe.lock;
  held = λ d i. elim (Bool-cases (c == d)) [
    | inl e ↦ own ∙ ap some (ground arith)
    | inr e ↦ safe.held d (ground arith)
  ];
}

-- Who does not hold the lock was not inside, and a release by it changes nothing.
idle_release-IsSafe :
    (s : System) (c : ℕ) → IsSafe s → IsSafe (record s { pc = update s.pc c outside })
idle_release-IsSafe s c safe = record { lock = safe.lock; held = λ d i. safe.held d (ground arith) }

released-IsSafe :
    (s : System) (c : ℕ) (t : Sync)
    → IsSafe s
    → s.sync.holder ≡ some c
    → IsReleased s.sync tt t
    → IsSafe (record { sync = t; pc = update s.pc c outside })
released-IsSafe s c t safe own released =
    let zero_val = IsLock-held s.sync c own safe.lock in
    record {
      lock = IsLock-free t released.1 (released.0 ∙ omega arith);
      held = λ d i.
          let same : c ≡ d = some_inj c d (sym own ∙ safe.held d (ground arith)) in
          absurd (ground arith);
    }

other-IsSafe :
    (s : System) (t : Sync) → IsSafe s → IsSame s.sync tt t → IsSafe (record s { sync = t })
other-IsSafe s t safe same = record {
  lock = IsLock-same s.sync t same.1 same.0 safe.lock;
  held = λ d i. same.1 ∙ safe.held d i;
}

is_holder :
    (s : System) (c : ℕ)
    → s.sync.threads.cur ≡ some c
    → holds s.sync.holder s.sync.threads.cur ≡ true
    → s.sync.holder ≡ some c
is_holder s c cur own =
    holds-some s.sync.holder c (ap (λ (o : Option ℕ). holds s.sync.holder o) (sym cur) ∙ own)

release-IsSafe :
    (s : System) (c : ℕ) (t : Sync)
    → IsSafe s
    → s.sync.threads.cur ≡ some c
    → lock_release s.sync ≡ ok (tt, t)
    → IsSafe (record { sync = t; pc = update s.pc c outside })
release-IsSafe s c t safe cur run =
    let after : Unit {0} → Sync → Type 0 =
      λ _ t. IsSafe (record { sync = t; pc = update s.pc c outside }) in
    let ends : Ends after (lock_release s.sync) =
      elim (Bool-cases (holds s.sync.holder s.sync.threads.cur)) [
        | inl own ↦
            Ends-map (IsReleased s.sync) after (lock_release s.sync)
              (λ _ u released. released-IsSafe s c u safe (is_holder s c cur own) released)
              (release-Ends s.sync own)
        | inr not_own ↦ rw (lock_release-other s.sync not_own) (idle_release-IsSafe s c safe)
      ] in
    rw run at ends

-- The end of `thread_block` leaves the interrupts closed.
resumed : (s : Sync) (m : Cmd Sync Bool) → (on_threads (sti_condition false) >> m) s ≡ m (closed s)
resumed s m = rw (◌>>◌, ◌>>=◌, on_threads, sti_condition_lem s.threads false) refl

module _ (v2p : ℕ → ℕ) (kern_dir : ℕ) where
  acquire-IsSafe :
      (s : System) (c node : ℕ) (done : Bool) (t : Sync)
      → IsSafe s
      → s.sync.threads.cur ≡ some c
      → lock_acquire v2p kern_dir node s.sync ≡ ok (done, t)
      → IsSafe (record { sync = t; pc = update s.pc c (returned done) })
  acquire-IsSafe s c node done t safe cur run =
      let after : Bool → Sync → Type 0 =
        λ done t. IsSafe (record { sync = t; pc = update s.pc c (returned done) }) in
      let ends : Ends after (lock_acquire v2p kern_dir node s.sync) =
        elim (Bool-cases (holds s.sync.holder s.sync.threads.cur)) [
          | inl own ↦
              rw (lock_acquire-own v2p kern_dir node s.sync own)
                (inside-IsSafe s c safe (is_holder s c cur own))
          | inr not_own ↦ rw (acquire_loop v2p kern_dir node s.sync not_own) (
              Ends-map (HasTaken s.sync) after
                ((sem_P v2p kern_dir node >>= take_lock s.sync.threads.int_flag) (closed s.sync))
                (λ r u taken. taken-IsSafe s c r u safe cur taken)
                (loop-Ends v2p kern_dir node s.sync.threads.int_flag (closed s.sync)))
        ] in
      rw run at ends

  Step-IsSafe : (s t : System) → IsSafe s → Step v2p kern_dir s t → IsSafe t
  Step-IsSafe s _ safe (acquire c node done t cur out run) =
      acquire-IsSafe s c node done t safe cur run
  Step-IsSafe s _ safe (resume c node condition done t cur in_loop run) =
      taken-IsSafe s c done t safe cur (
        rw (← resumed s.sync (sem_P v2p kern_dir node >>= take_lock condition), run) at
          (loop-Ends v2p kern_dir node condition (closed s.sync)))
  Step-IsSafe s _ safe (release c t cur out run) = release-IsSafe s c t safe cur run
  Step-IsSafe s _ safe (other m t run) =
      other-IsSafe s t safe (rw run at (on_threads-Ends m s.sync))

  Reach-IsSafe : (s0 : Sync) (s : System) → Reach v2p kern_dir s0 s → IsSafe s
  unfolding lock_init sem_init
  Reach-IsSafe s0 _ start = record { lock = refl; held = λ d i. absurd (ground arith) }
  Reach-IsSafe s0 t (next s _ before step) = Step-IsSafe s t (Reach-IsSafe s0 s before) step

  -- Two threads are never both between a return of `lock_acquire` and their next `lock_release` of the same
  -- lock, whatever calls, timer interrupts and other changes of the threads came before, since `lock_init`.
  -- In nested sections of one thread that span ends with the inner `lock_release`: what is left of the outer
  -- section is not protected, and nothing is claimed of it.
  pub mutual_exclusion :
      (s0 : Sync) (s : System) (c d : ℕ)
      → Reach v2p kern_dir s0 s
      → is_inside (s.pc c) ≡ true
      → is_inside (s.pc d) ≡ true
      → c ≡ d
  mutual_exclusion s0 s c d reach in_c in_d =
      let safe = Reach-IsSafe s0 s reach in some_inj c d (sym (safe.held c in_c) ∙ safe.held d in_d)
