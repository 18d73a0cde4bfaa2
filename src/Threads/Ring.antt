-- ===== src/Threads/Ring.antt =====
-- The ring of TCBs, and the search for the next thread.
use bhos.Common.{
  ℕ, zero, suc, ◌<◌, ◌≡◌, true, false, Option, none, some, List, [], ◌∷◌, arith, length, has, ◌==◌,
  if◌then◌else◌,
}
use bhos.Threads.{Tcb, is_ready, find_next}

-- Behind TCB `a` stand the TCBs of the list, in order, and behind the last one `cur`.
abbrev pub RingTo : (ℕ → Tcb) → ℕ → ℕ → List ℕ → Type 0
RingTo tcbs cur a [] = (tcbs a).next ≡ cur
RingTo tcbs cur a (x ∷ xs) = ((tcbs a).next ≡ x) × RingTo tcbs cur x xs

-- The first ready thread of the list.
unfoldable pub first_ready : (ℕ → Tcb) → List ℕ → Option ℕ
first_ready tcbs [] = none
first_ready tcbs (x ∷ xs) = if is_ready (tcbs x).task_status then some x else first_ready tcbs xs

-- With rounds for the whole ring the search ends at the first ready thread behind the current one.
pub find_next-first_ready :
    (fuel : ℕ) (tcbs : ℕ → Tcb) (cur a : ℕ) (xs : List ℕ)
    → RingTo tcbs cur a xs
    → has cur xs ≡ false
    → length xs < fuel
    → find_next fuel tcbs cur a ≡ some (first_ready tcbs xs)
unfolding find_next first_ready
find_next-first_ready zero tcbs cur a xs ring out h = absurd (omega arith)
find_next-first_ready (suc fuel) tcbs cur a [] ring out h =
    let back : ((tcbs a).next == cur) ≡ true = ground arith in rw back
find_next-first_ready (suc fuel) tcbs cur a (x ∷ xs) ring out h =
    let on : (x == cur) ≡ false = ground arith in
    rw (ring.0, on, find_next-first_ready fuel tcbs cur x xs ring.1 (ground arith) (omega arith))
      (ground arith)

-- A change of TCBs that keeps every link of the ring keeps the ring.
pub RingTo-frame :
    (tcbs tcbs' : ℕ → Tcb) (cur a : ℕ) (xs : List ℕ)
    → RingTo tcbs cur a xs
    → ((b : ℕ) → (tcbs' b).next ≡ (tcbs b).next)
    → RingTo tcbs' cur a xs
RingTo-frame tcbs tcbs' cur a [] ring same = ground (arith, same a)
RingTo-frame tcbs tcbs' cur a (x ∷ xs) ring same =
    (ground (arith, same a), RingTo-frame tcbs tcbs' cur x xs ring.1 same)

pub first_ready-mem :
    (tcbs : ℕ → Tcb) (xs : List ℕ) (p : ℕ)
    → first_ready tcbs xs ≡ some p
    → (has p xs ≡ true) × (is_ready (tcbs p).task_status ≡ true)
unfolding first_ready
first_ready-mem tcbs [] p h = absurd (ground arith)
first_ready-mem tcbs (x ∷ xs) p h = ground (arith, first_ready-mem tcbs xs p)
