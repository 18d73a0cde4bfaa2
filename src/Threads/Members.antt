-- ===== src/Threads/Members.antt =====
-- Threads that leave the ring.
use bhos.Common.{
  ℕ, zero, suc, ◌<◌, ◌≡◌, refl, ◌∙◌, true, false, some, List, [], ◌∷◌, arith, length, has, ◌==◌,
  if◌then◌else◌, Returns, ◌>>=◌, Distinct,
}
use bhos.Chain.{last_of, last_of-mem}
use bhos.Threads.{
  Tcb, Threads, is_running, time_cont, threads_init, check_kern_stack_overflow, find_prev,
  remove_from, leave, exit_from, put,
}
use bhos.Threads.Ring.{RingTo}

find_prev-last_of :
    (fuel : ℕ) (tcbs : ℕ → Tcb) (cur a : ℕ) (xs : List ℕ)
    → RingTo tcbs cur a xs
    → has cur xs ≡ false
    → length xs < fuel
    → find_prev fuel tcbs cur a ≡ some (last_of a xs)
unfolding find_prev
find_prev-last_of zero tcbs cur a xs ring out h = absurd (omega arith)
find_prev-last_of (suc fuel) tcbs cur a [] ring out h =
    let back : ((tcbs a).next == cur) ≡ true = ground arith in rw back
find_prev-last_of (suc fuel) tcbs cur a (x ∷ xs) ring out h =
    let on : (x == cur) ≡ false = ground arith in
    rw (ring.0, on, find_prev-last_of fuel tcbs cur x xs ring.1 (ground arith) (omega arith))

-- The ring closes over the removed thread when the last link leads to its successor.
RingTo-close :
    (tcbs tcbs' : ℕ → Tcb) (c x a : ℕ) (xs : List ℕ)
    → RingTo tcbs c a xs
    → Distinct (a ∷ xs)
    → ((b : ℕ) → (tcbs' b).next ≡ (if b == last_of a xs then x else (tcbs b).next))
    → RingTo tcbs' x a xs
RingTo-close tcbs tcbs' c x a [] ring d next = ground (arith, next a)
RingTo-close tcbs tcbs' c x a (y ∷ ys) ring d next =
    let apart : (a == last_of y ys) ≡ false = ground (arith, d.0, last_of-mem y ys) in
    (ground (arith, next a), RingTo-close tcbs tcbs' c x y ys ring.1 d.1 next)

abbrev unlinked : ℕ → ℕ → Threads → Threads
unlinked temp next s = put temp (record (s.tcbs temp) { next = next }) s

unlinked-next :
    (temp next : ℕ) (s : Threads) (b : ℕ)
    → ((unlinked temp next s).tcbs b).next ≡ (if b == temp then next else (s.tcbs b).next)
unlinked-next temp next s b = ground arith

unlinked-status :
    (temp next : ℕ) (s : Threads) (b : ℕ)
    → ((unlinked temp next s).tcbs b).task_status ≡ (s.tcbs b).task_status
unlinked-status temp next s b = ground arith

leave-facts :
    (c x : ℕ) (s : Threads)
    → (s.tcbs c).next ≡ x
    → ((leave c s).cur ≡ some x)
      × ((b : ℕ) → ((leave c s).tcbs b).next ≡ (s.tcbs b).next)
      × (((leave c s).tcbs x).task_status ≡ (s.tcbs x).task_status)
      × (((leave c s).tcbs x).time_left ≡ time_cont)
unfolding leave
leave-facts c x s h = rw h (refl, (λ b. ground arith), ground arith, ground arith)

-- `exit` of a thread other than the main one, with another thread in the ring: the next thread of the
-- ring is current, with a full time slice and the status it had, and the other threads form the ring in
-- the same order. The walk to the thread before the current one ends within the rounds.
pub exit_from-RingTo :
    (s : Threads) (c x : ℕ) (xs : List ℕ)
    → RingTo s.tcbs c c (x ∷ xs)
    → Distinct (c ∷ x ∷ xs)
    → length (x ∷ xs) < s.count
    → ((s.tcbs c).tid == 0) ≡ false
    → Returns
        (λ _ t.
          (t.cur ≡ some x)
          × RingTo t.tcbs x x xs
          × ((t.tcbs x).task_status ≡ (s.tcbs x).task_status)
          × ((t.tcbs x).time_left ≡ time_cont))
        (exit_from c s)
unfolding exit_from remove_from
exit_from-RingTo s c x xs ring d h tid =
    let found : find_prev s.count s.tcbs c c ≡ some (last_of x xs) =
      find_prev-last_of s.count s.tcbs c c (x ∷ xs) ring d.0 h in
    let apart : (c == last_of x xs) ≡ false = ground (arith, d.0, last_of-mem x xs) in
    let removed = unlinked (last_of x xs) (s.tcbs c).next (record s { int_flag = false }) in
    let link = unlinked-next (last_of x xs) (s.tcbs c).next (record s { int_flag = false }) in
    let after : (removed.tcbs c).next ≡ x = ground (arith, link c, ring.0, apart) in
    let left = leave-facts c x removed after in
    (
      tt,
      leave c removed,
      rw (exit_from, ◌>>=◌, remove_from, tid, found) refl,
      (
        left.0,
        RingTo-close s.tcbs (leave c removed).tcbs c x x xs ring.1 d.1
            (λ b. left.1 b ∙ link b ∙ ground (arith, ring.0)),
        left.2 ∙ unlinked-status (last_of x xs) (s.tcbs c).next (record s { int_flag = false }) x,
        left.3,
      ),
    )

-- After `threads_init` the main thread is current and alone in the ring, running, with a full time
-- slice and a sound stack.
pub threads_init-RingTo :
    (main : ℕ) (s : Threads)
    → let t = threads_init main s in
      (t.cur ≡ some main)
      × RingTo t.tcbs main main []
      × (is_running (t.tcbs main).task_status ≡ true)
      × ((t.tcbs main).time_left ≡ time_cont)
      × (check_kern_stack_overflow (t.tcbs main) ≡ true)
unfolding threads_init
threads_init-RingTo main s = (refl, ground arith, ground arith, ground arith, ground arith)
