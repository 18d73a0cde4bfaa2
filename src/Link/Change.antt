-- ===== src/Link/Change.antt =====
-- Nodes that join a list and leave it.
use bhos.Common.{
  ℕ, zero, suc, ◌<◌, ◌≡◌, refl, sym, ◌∙◌, arith, Bool, true, false, Bool-cases, inl, inr, ◌⊎◌,
  Option, none, some, List, [], ◌∷◌, ◌++◌, length, has, Distinct, Distinct-snoc, if◌then◌else◌,
  ◌==◌, update, update_self, Returns, ok, fault, Fault,
}
use bhos.Chain.{Links, Chain, last_of, last_node, last_node-last_of, Chain-update}
use bhos.Chain.Append.{Chain-append}
use bhos.Link.{
  Link, remove_next_node, link_add_tail, link_add_head, find_previous, remove_where, search,
  link_find_node_by_data,
}

-- The list holds the nodes, in order, and the rounds are enough.
pub record IsLink (link : Link) (xs : List ℕ) : Type 0 where
  pub chain : Chain link.next link.head xs
  pub distinct : Distinct xs
  pub counted : length xs < link.count

-- `link_add_tail` of a node that is not in the list and links nowhere puts it at the end, without a
-- fault.
pub link_add_tail-IsLink :
    (link : Link) (xs : List ℕ) (node : ℕ)
    → IsLink link xs
    → has node xs ≡ false
    → link.next node ≡ none
    → Returns
        (λ _ t. Chain t.next t.head (xs ++ (node ∷ [])) × Distinct (xs ++ (node ∷ [])))
        (link_add_tail node link)
unfolding link_add_tail
link_add_tail-IsLink link [] node i out alone = (
  tt,
  record link { head = some node },
  (λ j. elim (i.chain j) [
    | none ↦ ok (tt, record link { head = some node })
    | some header ↦ elim (last_node link.count link.next header) [
      | none ↦ fault Fault.endless
      | some probe ↦ ok (tt, record link { next = update link.next probe (some node) })
    ]
  ]),
  ((refl, alone), (refl, tt)),
)
link_add_tail-IsLink link (x ∷ xs) node i out alone =
    let walk = last_node-last_of link.count link.next x xs i.chain.1 (omega (arith, i.counted)) in
    let joined = Chain-append link.next x node xs (refl, i.chain.1) i.distinct out alone in
    (
      tt,
      record link { next = update link.next (last_of x xs) (some node) },
      (λ j. elim (i.chain.0 j) [
        | none ↦ ok (tt, record link { head = some node })
        | some header ↦ elim (last_node link.count link.next header) [
          | none ↦ fault Fault.endless
          | some probe ↦ ok (tt, record link { next = update link.next probe (some node) })
        ]
      ])
          ∙ rw walk refl,
      ((i.chain.0, joined.1), Distinct-snoc node (x ∷ xs) i.distinct out),
    )

-- `link_add_head` of a node that is not in the list puts it in front.
link_add_head-IsLink :
    (link : Link) (xs : List ℕ) (node : ℕ)
    → IsLink link xs
    → has node xs ≡ false
    → let t = link_add_head node link in Chain t.next t.head (node ∷ xs) × Distinct (node ∷ xs)
unfolding link_add_head
link_add_head-IsLink link xs node i out = ((refl, ground_tail), (out, i.distinct))
  where
    ground_tail : Chain (update link.next node link.head) (update link.next node link.head node) xs
    ground_tail =
        rw (update_self link.next node link.head)
          (Chain-update link.next link.head xs node link.head i.chain out)

-- The nodes in front of the first one that passes the test.
abbrev pub before : (ℕ → Bool) → List ℕ → List ℕ
before test [] = []
before test (y ∷ ys) = if test y then [] else y ∷ before test ys

abbrev pub any : (ℕ → Bool) → List ℕ → Bool
any test [] = false
any test (y ∷ ys) = if test y then true else any test ys

-- The walk ends at the end of the list, or at a node behind which the list is cut to `before`.
pub find_previous-before :
    (test : ℕ → Bool) (fuel : ℕ) (nx : Links) (x : ℕ) (xs : List ℕ)
    → Chain nx (nx x) xs
    → Distinct (x ∷ xs)
    → length xs < fuel
    → ((any test xs ≡ false) × (before test xs ≡ xs) × (find_previous test fuel nx x ≡ some none))
      ⊎ ((p : ℕ) × (q : ℕ) × (find_previous test fuel nx x ≡ some (some p))
          × (any test xs ≡ true)
          × (nx p ≡ some q)
          × (has p (x ∷ xs) ≡ true)
          × Chain (update nx p none) (update nx p none x) (before test xs))
unfolding find_previous
find_previous-before test zero nx x xs c d h = absurd (omega arith)
find_previous-before test (suc fuel) nx x [] c d h = inl (refl, refl, rw (c, find_previous) refl)
find_previous-before test (suc fuel) nx x (y ∷ ys) c d h = elim (Bool-cases (test y)) [
  | inl e ↦
      inr (x, y, rw (c.0, find_previous, e) refl, rw e refl, c.0, ground arith, rw e (ground arith))
  | inr e ↦ elim (find_previous-before test fuel nx y ys c.1 d.1 (omega arith)) [
    | inl n ↦ inl (rw e n.0, rw (e, n.1) refl, rw (c.0, find_previous, e) n.2)
    | inr (p, q, run, found, link, mem, chain) ↦ inr (
      p,
      q,
      rw (c.0, find_previous, e) run,
      rw e found,
      link,
      ground arith,
      rw e (ground (arith, d.0, c.0), chain),
    )
  ]
]

pub remove_where-run :
    (test : ℕ → Bool) (link : Link) (x : ℕ) (found : Option ℕ)
    → link.head ≡ some x
    → find_previous test link.count link.next x ≡ some found
    → remove_where test link
      ≡ elim found [ none ↦ ok (false, link) | some probe ↦ remove_next_node probe link ]
unfolding remove_where
remove_where-run test link x found head walk =
    (λ j. elim (head j) [
      | none ↦ ok (false, link)
      | some header ↦ elim (find_previous test link.count link.next header) [
        | none ↦ fault Fault.endless
        | some none ↦ ok (false, link)
        | some (some probe) ↦ remove_next_node probe link
      ]
    ])
    ∙ rw walk (elim found [ none ↦ refl | some probe ↦ refl ])

-- The removals by data and by node, on a list that begins with `x`: they end without a fault and report
-- whether a node behind the first one passes the test, and when one does, the list ends in front of it.
-- The first node is never tested, and the nodes behind the removed one are lost.
pub remove_where-before :
    (test : ℕ → Bool) (link : Link) (x : ℕ) (xs : List ℕ)
    → IsLink link (x ∷ xs)
    → Returns
        (λ r t. (r ≡ any test xs) × Chain t.next t.head (x ∷ before test xs))
        (remove_where test link)
unfolding remove_next_node
remove_where-before test link x xs i =
    elim (find_previous-before test link.count link.next x xs i.chain.1 i.distinct
      (omega (arith, i.counted))) [
        | inl (nobody, whole, run) ↦ (
          false,
          link,
          remove_where-run test link x none i.chain.0 run,
          (sym nobody, rw whole i.chain),
        )
        | inr (p, q, run, found, next, _, chain) ↦ (
          true,
          record link { next = update link.next p none },
          remove_where-run test link x (some p) i.chain.0 run ∙ rw (remove_next_node, next) refl,
          (sym found, (i.chain.0, chain)),
        )
      ]

search-any :
    (target fuel : ℕ) (link : Link) (x : ℕ) (xs : List ℕ)
    → Chain link.next (link.next x) xs
    → suc (length xs) < fuel
    → search target fuel link (some x)
      ≡ ok (if any (λ q. link.node_data q == target) (x ∷ xs) then some target else none)
unfolding search
search-any target zero link x xs c h = absurd (omega arith)
search-any target (suc zero) link x xs c h = absurd (omega arith)
search-any target (suc (suc fuel)) link x [] c h = elim (Bool-cases (link.node_data x == target)) [
  | inl e ↦ rw e refl
  | inr e ↦ rw (e, c) refl
]
search-any target (suc (suc fuel)) link x (y ∷ ys) c h =
    elim (Bool-cases (link.node_data x == target)) [
      | inl e ↦ rw e refl
      | inr e ↦ rw (e, c.0) (search-any target (suc fuel) link y ys c.1 (omega arith))
    ]

-- `link_find_node_by_data` of a list with a first node ends without a fault. When a node of the list has the
-- data it returns the data itself, not the node, and otherwise NULL.
pub link_find_node_by_data-any :
    (target : ℕ) (link : Link) (x : ℕ) (xs : List ℕ)
    → IsLink link (x ∷ xs)
    → link_find_node_by_data target link
      ≡ ok (if any (λ q. link.node_data q == target) (x ∷ xs) then some target else none)
unfolding link_find_node_by_data
link_find_node_by_data-any target link x xs i =
    (λ j. elim (i.chain.0 j) [ none ↦ ok none | some h ↦ search target link.count link (some h) ])
    ∙ search-any target link.count link x xs i.chain.1 i.counted
