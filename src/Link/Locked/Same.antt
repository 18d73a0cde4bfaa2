-- ===== src/Link/Locked/Same.antt =====
-- With its lock free a list changes as one without a lock.
use bhos.Common.{
  ℕ, Bool, true, false, Option, none, some, update, ok, fault, Fault, pure, inl, inr, ◌>>=◌, ◌≡◌,
  refl, ◌∙◌, arith, List, [], ◌∷◌, Returns,
}
use bhos.Chain.{last_of, last_node, last_node-last_of}
use bhos.Sync.{Sync}
use bhos.Sync.Guarded.{lock_acquire_if, lock_release_if, IsFree, lock_if-free}
use bhos.Link.{Link, link_add_tail, link_add_head, find_previous, remove_where, remove_next_node}
use bhos.Link.Change.{IsLink, any, find_previous-before, remove_where-run}
use bhos.Link.Locked.{
  LockedLink, under_lock, add_tail_locked, add_head_locked, remove_next_locked, remove_locked,
}

-- From `s` to `t`: a lock in use is free, with nobody holding it and the value 1; one that is not in use is
-- as it was.
abbrev pub IsOpen : LockedLink → LockedLink → Type 0
IsOpen s t =
    (s.lock_init_flag ≡ true → (t.lock.holder ≡ none) × (t.lock.val ≡ 1))
    × (s.lock_init_flag ≡ false → t.lock ≡ s.lock)

-- The branches of the insertion at the end.
tail_empty :
    (l : Link) (node : ℕ)
    → l.head ≡ none
    → link_add_tail node l ≡ ok (tt, record l { head = some node })
unfolding link_add_tail
tail_empty l node e = λ j. elim (e j) [
  | none ↦ ok (tt, record l { head = some node })
  | some header ↦ elim (last_node l.count l.next header) [
    | none ↦ fault Fault.endless
    | some probe ↦ ok (tt, record l { next = update l.next probe (some node) })
  ]
]

tail_some :
    (l : Link) (node x p : ℕ)
    → l.head ≡ some x
    → last_node l.count l.next x ≡ some p
    → link_add_tail node l ≡ ok (tt, record l { next = update l.next p (some node) })
unfolding link_add_tail
tail_some l node x p e walk =
    (λ j. elim (e j) [
      | none ↦ ok (tt, record l { head = some node })
      | some header ↦ elim (last_node l.count l.next header) [
        | none ↦ fault Fault.endless
        | some probe ↦ ok (tt, record l { next = update l.next probe (some node) })
      ]
    ])
    ∙ rw walk refl

locked_empty :
    (v2p : ℕ → ℕ) (kern_dir node_addr node : ℕ) (s : LockedLink)
    → s.link.head ≡ none
    → add_tail_locked v2p kern_dir node_addr node s
      ≡ under_lock v2p kern_dir node_addr (λ link. record link { head = some node }) s
unfolding add_tail_locked
locked_empty v2p kern_dir node_addr node s e = λ j. elim (e j) [
  | none ↦ under_lock v2p kern_dir node_addr (λ link. record link { head = some node }) s
  | some header ↦ elim (last_node s.link.count s.link.next header) [
    | none ↦ fault Fault.endless
    | some probe ↦
        under_lock v2p kern_dir node_addr
          (λ link. record link { next = update link.next probe (some node) }) s
  ]
]

locked_some :
    (v2p : ℕ → ℕ) (kern_dir node_addr node x p : ℕ) (s : LockedLink)
    → s.link.head ≡ some x
    → last_node s.link.count s.link.next x ≡ some p
    → add_tail_locked v2p kern_dir node_addr node s
      ≡ under_lock v2p kern_dir node_addr
          (λ link. record link { next = update link.next p (some node) })
          s
unfolding add_tail_locked
locked_some v2p kern_dir node_addr node x p s e walk =
    (λ j. elim (e j) [
      | none ↦ under_lock v2p kern_dir node_addr (λ link. record link { head = some node }) s
      | some header ↦ elim (last_node s.link.count s.link.next header) [
        | none ↦ fault Fault.endless
        | some probe ↦
            under_lock v2p kern_dir node_addr
              (λ link. record link { next = update link.next probe (some node) }) s
      ]
    ])
    ∙ rw walk refl

removal_run :
    (v2p : ℕ → ℕ) (kern_dir node_addr x : ℕ) (test : ℕ → Bool) (s : LockedLink) (found : Option ℕ)
    → s.link.head ≡ some x
    → find_previous test s.link.count s.link.next x ≡ some found
    → remove_locked v2p kern_dir node_addr test s ≡ elim found [
      | none ↦ ok (some false, s)
      | some probe ↦ remove_next_locked v2p kern_dir node_addr probe s
    ]
unfolding remove_locked
removal_run v2p kern_dir node_addr x test s found head walk =
    (λ j. elim (head j) [
      | none ↦ ok (some false, s)
      | some header ↦ elim (find_previous test s.link.count s.link.next header) [
        | none ↦ fault Fault.endless
        | some none ↦ ok (some false, s)
        | some (some probe) ↦ remove_next_locked v2p kern_dir node_addr probe s
      ]
    ])
    ∙ rw walk (elim found [ none ↦ refl | some probe ↦ refl ])

next_run :
    (v2p : ℕ → ℕ) (kern_dir node_addr p q : ℕ) (s t : LockedLink)
    → s.link.next p ≡ some q
    → under_lock v2p kern_dir node_addr (λ link. record link { next = update link.next p none }) s
      ≡ ok (true, t)
    → remove_next_locked v2p kern_dir node_addr p s ≡ ok (some true, t)
unfolding remove_next_locked
next_run v2p kern_dir node_addr p q s t next run =
    rw (remove_next_locked, next, ◌>>=◌, run, pure) refl

module _ (v2p : ℕ → ℕ) (kern_dir node_addr c : ℕ) (ns : List ℕ) (s : LockedLink)
    (free : s.lock_init_flag ≡ true → IsFree s.lock c ns) where
  under_lock_run :
      (change : Link → Link) (held t : Sync)
      → lock_acquire_if v2p kern_dir node_addr s.lock_init_flag s.lock ≡ ok (true, held)
      → lock_release_if s.lock_init_flag held ≡ ok (tt, t)
      → under_lock v2p kern_dir node_addr change s
        ≡ ok (true, record s { link = change s.link; lock = t })
  unfolding under_lock
  under_lock_run change held t first last = rw (under_lock, first, last) refl

  under_lock-free :
      (change : Link → Link)
      → (t : Sync) × (under_lock v2p kern_dir node_addr change s
          ≡ ok (true, record s { link = change s.link; lock = t }))
        × (s.lock_init_flag ≡ true → (t.holder ≡ none) × (t.val ≡ 1))
        × (s.lock_init_flag ≡ false → t ≡ s.lock)
  under_lock-free change =
      let (held, t, first, last, opened, same) =
        lock_if-free v2p kern_dir node_addr c ns s.lock_init_flag s.lock free in
      (t, under_lock_run change held t first last, opened, same)

  add_tail_same :
      (xs : List ℕ) (node : ℕ)
      → IsLink s.link xs
      → Returns
          (λ done t. (done ≡ true) × (link_add_tail node s.link ≡ ok (tt, t.link)) × IsOpen s t)
          (add_tail_locked v2p kern_dir node_addr node s)
  add_tail_same [] node i =
      let change : Link → Link = λ link. record link { head = some node } in
      let (t, run, opened, same) = under_lock-free change in
      (
        true,
        record s { link = change s.link; lock = t },
        locked_empty v2p kern_dir node_addr node s i.chain ∙ run,
        (refl, tail_empty s.link node i.chain, (opened, same)),
      )
  add_tail_same (x ∷ xs) node i =
      let walk =
        last_node-last_of s.link.count s.link.next x xs i.chain.1 (omega (arith, i.counted)) in
      let change : Link → Link =
        λ link. record link { next = update link.next (last_of x xs) (some node) } in
      let (t, run, opened, same) = under_lock-free change in
      (
        true,
        record s { link = change s.link; lock = t },
        locked_some v2p kern_dir node_addr node x (last_of x xs) s i.chain.0 walk ∙ run,
        (refl, tail_some s.link node x (last_of x xs) i.chain.0 walk, (opened, same)),
      )

  remove_same :
      (test : ℕ → Bool) (x : ℕ) (xs : List ℕ)
      → IsLink s.link (x ∷ xs)
      → Returns
          (λ answer t.
            (answer ≡ some (any test xs))
            × (remove_where test s.link ≡ ok (any test xs, t.link))
            × IsOpen s t)
          (remove_locked v2p kern_dir node_addr test s)
  unfolding remove_next_node
  remove_same test x xs i =
      elim (find_previous-before test s.link.count s.link.next x xs i.chain.1 i.distinct
        (omega (arith, i.counted))) [
          | inl (nobody, whole, run) ↦ (
            some false,
            s,
            removal_run v2p kern_dir node_addr x test s none i.chain.0 run,
            (
              rw nobody refl,
              rw nobody (remove_where-run test s.link x none i.chain.0 run),
              ((λ e. ((free e).unheld, (free e).one)), (λ _. refl)),
            ),
          )
          | inr (p, q, run, found, next, _, chain) ↦
              let change : Link → Link = λ link. record link { next = update link.next p none } in
              let (t, locked, opened, same) = under_lock-free change in
              (
                some true,
                record s { link = change s.link; lock = t },
                removal_run v2p kern_dir node_addr x test s (some p) i.chain.0 run
                    ∙ next_run v2p kern_dir node_addr p q s
                        (record s { link = change s.link; lock = t }) next locked,
                (
                  rw found refl,
                  rw found (
                      remove_where-run test s.link x (some p) i.chain.0 run
                      ∙ rw (remove_next_node, next) refl),
                  (opened, same),
                ),
              )
        ]

  -- A list that begins with a node and whose lock, if it is in use, is free; a list without a lock may hold
  -- anything in its place. The two insertions and the removals end without a fault, change the list as they
  -- change a list without a lock, give the same answer, and leave a lock in use free and another as it was.
  pub locked-unlocked :
      (test : ℕ → Bool) (node x : ℕ) (xs : List ℕ)
      → IsLink s.link (x ∷ xs)
      → Returns
          (λ done t. (done ≡ true) × (link_add_tail node s.link ≡ ok (tt, t.link)) × IsOpen s t)
          (add_tail_locked v2p kern_dir node_addr node s)
        × Returns
            (λ done t. (done ≡ true) × (t.link ≡ link_add_head node s.link) × IsOpen s t)
            (add_head_locked v2p kern_dir node_addr node s)
        × Returns
            (λ answer t.
              (answer ≡ some (any test xs))
              × (remove_where test s.link ≡ ok (any test xs, t.link))
              × IsOpen s t)
            (remove_locked v2p kern_dir node_addr test s)
  unfolding add_head_locked
  locked-unlocked test node x xs i =
      let (t, run, opened, same) = under_lock-free (link_add_head node) in
      (
        add_tail_same (x ∷ xs) node i,
        (
          true,
          record s { link = link_add_head node s.link; lock = t },
          run,
          (refl, refl, (opened, same)),
        ),
        remove_same test x xs i,
      )
