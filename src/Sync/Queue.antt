-- ===== src/Sync/Queue.antt =====
-- The wait queue is first in, first out.
use bhos.Common.{
  ℕ, suc, ◌<◌, ◌≡◌, refl, ◌∙◌, arith, true, false, none, some, List, [], ◌∷◌, ◌++◌, length,
  length-append, has, Distinct, Distinct-snoc, update, Returns, ok, fault, Fault,
}
use bhos.Chain.{Links, Chain, last_of, last_node, last_node-last_of, Chain-update}
use bhos.Chain.Append.{Chain-append}
use bhos.Sync.{WaitQueue, sync_tool_get, sync_tool_add, sync_tool_is_empty}

-- The queue holds the nodes of the list, in order, and the rounds are enough for one more.
pub record IsQueue (queue : WaitQueue) (xs : List ℕ) : Type 0 where
  pub chain : Chain queue.next queue.head xs
  pub distinct : Distinct xs
  pub counted : length xs < queue.nodes

abbrev cleared : WaitQueue → ℕ → Links
cleared queue node = update queue.next node none

add-none :
    (queue : WaitQueue) (node : ℕ)
    → queue.head ≡ none
    → sync_tool_add node queue
      ≡ ok (tt, record queue { head = some node; next = cleared queue node })
unfolding sync_tool_add
add-none queue node e = λ j. elim (e j) [
  | none ↦ ok (tt, record queue { head = some node; next = cleared queue node })
  | some header ↦ elim (last_node queue.nodes (cleared queue node) header) [
    | none ↦ fault Fault.endless
    | some probe ↦ ok (tt, record queue { next = update (cleared queue node) probe (some node) })
  ]
]

add-some :
    (queue : WaitQueue) (node header probe : ℕ)
    → queue.head ≡ some header
    → last_node queue.nodes (cleared queue node) header ≡ some probe
    → sync_tool_add node queue
      ≡ ok (tt, record queue { next = update (cleared queue node) probe (some node) })
unfolding sync_tool_add
add-some queue node header probe e walk =
    (λ j. elim (e j) [
      | none ↦ ok (tt, record queue { head = some node; next = cleared queue node })
      | some h ↦ elim (last_node queue.nodes (cleared queue node) h) [
        | none ↦ fault Fault.endless
        | some p ↦ ok (tt, record queue { next = update (cleared queue node) p (some node) })
      ]
    ])
    ∙ rw walk refl

-- `sync_tool_add` of a node that is not in the queue puts it at the end, without a fault.
pub sync_tool_add-IsQueue :
    (queue : WaitQueue) (xs : List ℕ) (node : ℕ)
    → IsQueue queue xs
    → has node xs ≡ false
    → suc (length xs) < queue.nodes
    → Returns
        (λ _ q. IsQueue q (xs ++ (node ∷ [])) × (q.thread ≡ queue.thread) × (q.nodes ≡ queue.nodes))
        (sync_tool_add node queue)
sync_tool_add-IsQueue queue [] node i out room = (
  tt,
  record queue { head = some node; next = cleared queue node },
  add-none queue node i.chain,
  (record { chain = (refl, ground arith); distinct = (refl, tt); counted = room }, refl, refl),
)
sync_tool_add-IsQueue queue (x ∷ xs) node i out room =
    let old : Chain (cleared queue node) queue.head (x ∷ xs) =
      Chain-update queue.next queue.head (x ∷ xs) node none i.chain out in
    let walk =
      last_node-last_of queue.nodes (cleared queue node) x xs old.1 (omega (arith, i.counted)) in
    let joined =
      Chain-append (cleared queue node) x node xs (refl, old.1) i.distinct out (ground arith) in
    (
      tt,
      record queue { next = update (cleared queue node) (last_of x xs) (some node) },
      add-some queue node x (last_of x xs) old.0 walk,
      (
        record {
          chain = rw old.0 joined;
          distinct = Distinct-snoc node (x ∷ xs) i.distinct out;
          counted = ground (arith, length-append xs (node ∷ []), room);
        },
        refl,
        refl,
      ),
    )

-- One `sync_tool_get`, written out.
pub sync_tool_get_first :
    (queue : WaitQueue) (x : ℕ) (xs : List ℕ)
    → IsQueue queue (x ∷ xs)
    → (sync_tool_get queue
        ≡ (some x, record queue { head = queue.next x; next = update queue.next x none }))
      × IsQueue (record queue { head = queue.next x; next = update queue.next x none }) xs
      × (sync_tool_is_empty queue ≡ false)
unfolding sync_tool_get sync_tool_is_empty
sync_tool_get_first queue x xs i = (
  (λ j. elim (i.chain.0 j) [
    | none ↦ (none, queue)
    | some probe ↦
        (some probe, record queue { head = queue.next probe; next = update queue.next probe none })
  ]),
  record {
    chain = Chain-update queue.next (queue.next x) xs x none i.chain.1 i.distinct.0;
    distinct = i.distinct.1;
    counted = omega (arith, i.counted);
  },
  (λ j. elim (i.chain.0 j) [ none ↦ true | some _ ↦ false ]),
)

-- `sync_tool_get` of a queue that is not empty gives its first node and takes it out; the others stay in
-- order.
pub sync_tool_get-IsQueue :
    (queue : WaitQueue) (x : ℕ) (xs : List ℕ)
    → IsQueue queue (x ∷ xs)
    → ((sync_tool_get queue).0 ≡ some x)
      × IsQueue (sync_tool_get queue).1 xs
      × ((sync_tool_get queue).1.thread ≡ queue.thread)
sync_tool_get-IsQueue queue x xs i =
    let got = sync_tool_get_first queue x xs i in rw got.0 (refl, got.1, refl)

pub is_empty-none : (queue : WaitQueue) → queue.head ≡ none → sync_tool_is_empty queue ≡ true
unfolding sync_tool_is_empty
is_empty-none queue e = λ j. elim (e j) [ none ↦ true | some _ ↦ false ]
