-- ===== src/Threads/Schedule.antt =====
-- What the scheduler guarantees: one running thread, chosen fairly from the ring.
use bhos.Common.{
  ℕ, ◌<◌, ◌≡◌, ◌≢◌, refl, ◌∙◌, Bool, true, false, if◌then◌else◌, Option, none, some, List, [], ◌∷◌,
  arith, length, has, ◌==◌, Returns, u32, ◌+◌, ◌*◌, ok, fault, Fault, ap, eq→==, Option-cases, inl,
  inr, Bool-cases, ◌>>=◌, ◌>>◌,
}
use bhos.Threads.{
  Threads, blocked, is_running, is_ready, magic_number, v2p_error, time_cont, Tcb, flags_word,
  opens, switch_to, after_block, active_task, dispatch, switched, running, keep_running, schedule,
  schedule_from, block_from, thread_block, thread_wakeup, ready, cli_condition, sti_condition, put,
}
use bhos.Threads.Ring.{RingTo, RingTo-frame, first_ready, first_ready-mem, find_next-first_ready}

-- Thread `c` is current, `xs` are the other threads in ring order, none of them is running, the
-- current thread is not merely ready, its stack is sound, and every page directory has an address.
pub record IsCurrent (v2p : ℕ → ℕ) (s : Threads) (c : ℕ) (xs : List ℕ) : Type 0 where
  pub cur : s.cur ≡ some c
  pub ring : RingTo s.tcbs c c xs
  pub alone : has c xs ≡ false
  pub idle : (a : ℕ) → has a xs ≡ true → is_running (s.tcbs a).task_status ≡ false
  pub not_ready : is_ready (s.tcbs c).task_status ≡ false
  pub sound : (s.tcbs c).magic ≡ magic_number
  pub mapped : (a : ℕ) → (v2p (s.tcbs a).pdt_vaddr == v2p_error) ≡ false
  pub counted : length xs < s.count

-- The thread that is to run: the first ready one behind the current one, or the current one.
abbrev pub chosen : Threads → ℕ → List ℕ → ℕ
chosen s c xs = elim (first_ready s.tcbs xs) [ none ↦ c | some p ↦ p ]

-- Thread `p` of the ring is current and running with a full time slice, no other thread of the ring is
-- running, and the ring is as it was.
pub record IsDispatched (s t : Threads) (c : ℕ) (xs : List ℕ) (p : ℕ) : Type 0 where
  pub cur : t.cur ≡ some p
  pub member : has p (c ∷ xs) ≡ true
  pub status : is_running (t.tcbs p).task_status ≡ true
  pub slice : (t.tcbs p).time_left ≡ time_cont
  pub others : (a : ℕ) → a ≢ p → has a (c ∷ xs) ≡ true → is_running (t.tcbs a).task_status ≡ false
  pub ring : (b : ℕ) → (t.tcbs b).next ≡ (s.tcbs b).next

IsDispatched-same :
    (s u t : Threads) (c : ℕ) (xs : List ℕ) (p : ℕ)
    → IsDispatched s u c xs p
    → t.cur ≡ u.cur
    → t.tcbs ≡ u.tcbs
    → IsDispatched s t c xs p
IsDispatched-same s u t c xs p d ec et = record {
  cur = ec ∙ d.cur;
  member = d.member;
  status = rw et d.status;
  slice = rw et d.slice;
  others = λ a ne m. rw et (d.others a ne m);
  ring = λ b. rw et (d.ring b);
}

-- The flags of thread `c`, which the state `s` had, are saved, and those of thread `p` are loaded.
abbrev pub HasSwitched : Threads → Threads → ℕ → ℕ → Type 0
HasSwitched s t c p =
    ((t.tcbs c).eflags ≡ flags_word s.int_flag) × (t.int_flag ≡ opens (s.tcbs p).eflags)

-- With no thread to switch to the interrupt flag stays.
abbrev pub AreFlagsKept : Threads → Threads → ℕ → Option ℕ → Type 0
AreFlagsKept s t c none = t.int_flag ≡ s.int_flag
AreFlagsKept s t c (some p) = HasSwitched s t c p

switch_to-IsDispatched :
    (s u : Threads) (c : ℕ) (xs : List ℕ) (p : ℕ)
    → IsDispatched s u c xs p
    → IsDispatched s (switch_to c p u) c xs p
unfolding switch_to
switch_to-IsDispatched s u c xs p d = record {
  cur = d.cur;
  member = d.member;
  status = ground (arith, d.status);
  slice = ground (arith, d.slice);
  others = λ a ne m. ground (arith, d.others a ne m);
  ring = λ b. ground (arith, d.ring b);
}

switch_to-HasSwitched :
    (s u : Threads) (c p : ℕ)
    → (c == p) ≡ false
    → (u.tcbs p).eflags ≡ (s.tcbs p).eflags
    → u.int_flag ≡ s.int_flag
    → HasSwitched s (switch_to c p u) c p
unfolding switch_to
switch_to-HasSwitched s u c p ne loaded flag = ground (arith, ne, loaded, flag)

module _ (v2p : ℕ → ℕ) (kern_dir : ℕ) (s : Threads) (c : ℕ) (xs : List ℕ)
    (i : IsCurrent v2p s c xs) where
  -- Loading the address space changes neither the threads nor which one is current.
  active_task-tcbs :
      (p : ℕ) (u : Threads)
      → (v2p (u.tcbs p).pdt_vaddr == v2p_error) ≡ false
      → Returns
          (λ _ t. (t.cur ≡ u.cur) × (t.tcbs ≡ u.tcbs) × (t.int_flag ≡ u.int_flag))
          (active_task v2p kern_dir p u)
  unfolding active_task
  active_task-tcbs p u e = elim (Bool-cases (u.tcbs p).is_kern_thread) [
    | inl kern ↦ (tt, record u { cr3 = kern_dir }, rw kern, (refl, refl, refl))
    | inr user ↦ (
      tt,
      record u {
        cr3 = v2p (u.tcbs p).pdt_vaddr;
        esp0 = u32 (p + u32 ((u.tcbs p).page_counte * 4096));
      },
      rw (user, e),
      (refl, refl, refl),
    )
  ]

  keep_running-IsDispatched :
      Returns
        (λ _ t. IsDispatched s t c xs c × (t.int_flag ≡ s.int_flag))
        (keep_running v2p kern_dir c s)
  unfolding keep_running
  keep_running-IsDispatched = elim (Bool-cases (is_running (s.tcbs c).task_status)) [
    | inl r ↦ (
      tt,
      put c (record (s.tcbs c) { time_left = time_cont }) s,
      rw (i.not_ready, r),
      (
        record {
          cur = i.cur;
          member = ground arith;
          status = ground arith;
          slice = ground arith;
          others = λ a ne m. ground (arith, i.idle a);
          ring = λ b. ground arith;
        },
        refl,
      ),
    )
    | inr n ↦ (
      tt,
      put c (record (s.tcbs c) { time_left = time_cont; task_status = running }) s,
      rw (i.not_ready, n),
      (
        record {
          cur = i.cur;
          member = ground arith;
          status = ground arith;
          slice = ground arith;
          others = λ a ne m. ground (arith, i.idle a);
          ring = λ b. ground arith;
        },
        refl,
      ),
    )
  ]

  switched-IsDispatched :
      (p : ℕ) → first_ready s.tcbs xs ≡ some p → IsDispatched s (switched c p s) c xs p
  unfolding switched
  switched-IsDispatched p e = record {
    cur = refl;
    member = ground (arith, first_ready-mem s.tcbs xs p e);
    status = ground arith;
    slice = ground arith;
    others = λ a ne m. ground (arith, i.idle a);
    ring = λ b. ground arith;
  }

  dispatch_run :
      (p : ℕ) (t : Threads)
      → active_task v2p kern_dir p (switched c p s) ≡ ok (tt, t)
      → dispatch v2p kern_dir c p s ≡ ok (tt, switch_to c p t)
  unfolding dispatch
  dispatch_run p t run = rw (dispatch, ◌>>=◌, run) refl

  switched-flags :
      (p : ℕ)
      → (((switched c p s).tcbs p).eflags ≡ (s.tcbs p).eflags)
        × ((switched c p s).int_flag ≡ s.int_flag)
  unfolding switched
  switched-flags p = ground arith

  -- The thread that is found is another one.
  pub other_thread : (p : ℕ) → first_ready s.tcbs xs ≡ some p → (c == p) ≡ false
  other_thread p e = ground (arith, first_ready-mem s.tcbs xs p e, i.alone)

  dispatch-IsDispatched :
      (p : ℕ)
      → first_ready s.tcbs xs ≡ some p
      → Returns (λ _ t. IsDispatched s t c xs p × HasSwitched s t c p) (dispatch v2p kern_dir c p s)
  unfolding switched
  dispatch-IsDispatched p e =
      let u : Threads = switched c p s in
      let (_, t, run, same) = active_task-tcbs p u (ground (arith, i.mapped p)) in
      (
        tt,
        switch_to c p t,
        dispatch_run p t run,
        (
          switch_to-IsDispatched s t c xs p
              (IsDispatched-same s u t c xs p (switched-IsDispatched p e) same.0 same.1),
          switch_to-HasSwitched s t c p (other_thread p e)
              (ap (λ (f : ℕ → Tcb). (f p).eflags) same.1 ∙ (switched-flags p).0)
              (same.2 ∙ (switched-flags p).1),
        ),
      )

  -- After `schedule` exactly one thread of the ring is running: the first ready one behind the current
  -- one, or the current one if none is ready. It is the current thread and has a full time slice; the
  -- ring is as before. On a switch the flags of the thread that gives way are saved and the interrupt flag
  -- is the one that the chosen thread has saved; with no other thread ready it is as before. The call ends
  -- without a fault, and what the WARNING prints that no thread may run is not modelled.
  pub schedule-IsDispatched :
      Returns
        (λ _ t. IsDispatched s t c xs (chosen s c xs) × AreFlagsKept s t c (first_ready s.tcbs xs))
        (schedule v2p kern_dir s)
  unfolding schedule schedule_from
  schedule-IsDispatched =
      let search = find_next-first_ready s.count s.tcbs c c xs i.ring i.alone i.counted in
      let sound : ((s.tcbs c).magic == magic_number) ≡ true = eq→== _ _ i.sound in
      let start : schedule v2p kern_dir s ≡ schedule_from v2p kern_dir c s =
        λ j. elim (i.cur j) [ none ↦ ok (tt, s) | some k ↦ schedule_from v2p kern_dir k s ] in
      elim (Option-cases (first_ready s.tcbs xs)) [
        | inl nobody ↦
            let (_, t, run, post) = keep_running-IsDispatched in
            (tt, t, start ∙ rw (sound, search, nobody, run), rw (nobody, chosen, AreFlagsKept) post)
        | inr (p, e) ↦
            let (_, t, run, post) = dispatch-IsDispatched p e in
            (tt, t, start ∙ rw (sound, search, e, run), rw (e, chosen, AreFlagsKept) post)
      ]

pub cli_condition_lem :
    (s : Threads) → cli_condition s ≡ ok (s.int_flag, record s { int_flag = false })
unfolding cli_condition
cli_condition_lem s = ground arith

pub sti_condition_lem :
    (s : Threads) (b : Bool) → sti_condition b s ≡ ok (tt, record s { int_flag = b })
unfolding sti_condition
sti_condition_lem s true = refl
sti_condition_lem s false = refl

-- A thread that has given way is not at the end of its call.
after_block-other :
    (t : Threads) (now p : ℕ) (condition : Bool)
    → t.cur ≡ some p
    → (now == p) ≡ false
    → after_block now condition t ≡ ok (tt, t)
unfolding after_block
after_block-other t now p condition e ne =
    let apart : (p == now) ≡ false = ground (arith, ne) in
    (λ j. elim (e j) [
      | none ↦ ok (tt, t)
      | some k ↦ if k == now then sti_condition condition t else ok (tt, t)
    ])
    ∙ rw apart refl

module _ (v2p : ℕ → ℕ) (kern_dir : ℕ) (s : Threads) (c : ℕ) (xs : List ℕ)
    (i : IsCurrent v2p s c xs) where
  blocked_state : Threads
  blocked_state =
      put c (record (s.tcbs c) { task_status = blocked }) (record s { int_flag = false })

  blocked-IsCurrent : IsCurrent v2p blocked_state c xs
  unfolding blocked_state
  blocked-IsCurrent = record {
    cur = i.cur;
    ring = RingTo-frame s.tcbs blocked_state.tcbs c c xs i.ring (λ b. ground arith);
    alone = i.alone;
    idle = λ a m. ground (arith, i.idle a);
    not_ready = ground arith;
    sound = ground (arith, i.sound);
    mapped = λ a. ground (arith, i.mapped a);
    counted = i.counted;
  }

  first_ready-blocked :
      (ys : List ℕ) → has c ys ≡ false → first_ready blocked_state.tcbs ys ≡ first_ready s.tcbs ys
  unfolding first_ready blocked_state
  first_ready-blocked [] out = refl
  first_ready-blocked (y ∷ ys) out = ground (arith, first_ready-blocked ys)

  -- A blocked thread gives way: when another thread of the ring is ready, `thread_block` comes to the switch
  -- without a fault; then the first ready thread is current and alone running, the ring is as before, the
  -- interrupt flag is the one that this thread has saved, and the flags saved for the blocked thread have the
  -- interrupts closed.
  pub thread_block-first_ready :
      (p : ℕ)
      → first_ready s.tcbs xs ≡ some p
      → Returns
          (λ _ t.
            (t.cur ≡ some p)
            × (is_running (t.tcbs p).task_status ≡ true)
            × ((a : ℕ) → a ≢ p → has a (c ∷ xs) ≡ true → is_running (t.tcbs a).task_status ≡ false)
            × ((b : ℕ) → (t.tcbs b).next ≡ (s.tcbs b).next)
            × (t.int_flag ≡ opens (s.tcbs p).eflags)
            × (opens (t.tcbs c).eflags ≡ false))
          (thread_block v2p kern_dir s)
  unfolding thread_block block_from blocked_state
  thread_block-first_ready p e =
      let (_, t, run, post) =
        schedule-IsDispatched v2p kern_dir blocked_state c xs blocked-IsCurrent in
      let found : first_ready blocked_state.tcbs xs ≡ some p = first_ready-blocked xs i.alone ∙ e in
      let pick : chosen blocked_state c xs ≡ p = ap (λ o. elim o [ none ↦ c | some q ↦ q ]) found in
      let d : IsDispatched blocked_state t c xs p = rw pick at post.0 in
      let flags : HasSwitched blocked_state t c p = rw found at post.1 in
      let ne = other_thread v2p kern_dir s c xs i p e in
      let start : thread_block v2p kern_dir s ≡ block_from v2p kern_dir c s = λ j. elim (i.cur j) [
        | none ↦ fault Fault.null_pointer
        | some k ↦ block_from v2p kern_dir k s
      ] in
      (
        tt,
        t,
        start
            ∙ rw (◌>>=◌, cli_condition_lem s, ◌>>◌, run)
                (after_block-other t c p s.int_flag d.cur ne),
        (
          d.cur,
          d.status,
          d.others,
          (λ b. d.ring b ∙ ground arith),
          flags.1 ∙ ground arith,
          ap opens flags.0,
        ),
      )

-- `thread_wakeup` makes the thread ready; with a current thread it ends without a fault and leaves the
-- interrupt flag.
pub thread_wakeup-ready :
    (s : Threads) (c target : ℕ)
    → s.cur ≡ some c
    → thread_wakeup target s
      ≡ ok (tt, put target (record (s.tcbs target) { task_status = ready }) s)
unfolding thread_wakeup
thread_wakeup-ready s c target h =
    (λ j. elim (h j) [
      | none ↦ fault Fault.null_pointer
      | some _ ↦
          (cli_condition >>= λ condition s'.
          sti_condition condition (put target (record (s'.tcbs target) { task_status = ready }) s'))
            s
    ])
    ∙ rw (◌>>=◌, cli_condition_lem s)
        (sti_condition_lem
          (put target (record (s.tcbs target) { task_status = ready })
            (record s { int_flag = false }))
          s.int_flag)
