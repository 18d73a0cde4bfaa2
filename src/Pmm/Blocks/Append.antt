-- ===== src/Pmm/Blocks/Append.antt =====
-- `append_block` puts a page at the end of the list of its class.
use bhos.Common.{
  ℕ, ◌≤◌, ◌<◌, ◌≡◌, ◌≢◌, refl, true, false, none, some, List, [], ◌∷◌, ◌++◌, arith, has, Distinct,
  update, ◌==◌, has-append, Distinct-snoc, length, Returns, sym,
}
use bhos.Chain.{Links, Chain, Chain-update, last_of, last_of-mem, last_node, last_node-last_of}
use bhos.Chain.Append.{Chain-append}
use bhos.Pmm.{Pmm, append_block, link_tail}
use bhos.Pmm.Free.{Lists, length-IsFree}
use bhos.Pmm.Blocks.Rep.{head_of, IsRep, Kept, IsRep-heads, IsRep-next}

-- A page that is in no list.
abbrev pub IsTaken : Lists → ℕ → Type 0
IsTaken f p = (d : ℕ) → has p (f d) ≡ false

-- The state after a page is appended: its list is longer by it, and the links of the pages that are in no
-- list stay.
abbrev pub Appended : Pmm → Lists → ℕ → ℕ → Pmm → Type 0
Appended s f c p t =
    IsRep t (update f c (f c ++ (p ∷ [])))
    × Kept s t
    × ((a : ℕ) → IsTaken f a → (p == a) ≡ false → t.next a ≡ s.next a)

module _ (s : Pmm) (f : Lists) (r : IsRep s f) (c p : ℕ) (le : c ≤ 10) (lt : p < s.max_page_no)
    (taken : IsTaken f p) where
  cleared : Links
  cleared = update s.next p none

  cleared-same : (a d : ℕ) → c ≢ d → has a (f d) ≡ true → cleared a ≡ s.next a
  unfolding cleared
  cleared-same a d ne i = ground (arith, taken d)

  append-empty : f c ≡ [] → Returns (λ _ t. Appended s f c p t) (append_block p c s)
  unfolding append_block cleared
  append-empty e =
      let none_at : s.heads c ≡ none = ground (arith, r.chains c) in
      (
        tt,
        record s { next = cleared; heads = update s.heads c (some p) },
        ground arith,
        (
          rw e (
              IsRep-heads s f r c cleared (some p) (p ∷ []) (ground arith) (ground arith)
                (λ a i. ground arith) (λ a d ne i. ground (arith, taken d)) cleared-same le),
          (refl, refl, refl, refl),
          (λ a out ne. ground arith),
        ),
      )

  append-tail :
      (x : ℕ) (xs : List ℕ)
      → f c ≡ x ∷ xs
      → Returns (λ _ t. Appended s f c p t) (append_block p c s)
  unfolding append_block cleared
  append-tail x xs e =
      let chain : Chain s.next (head_of s c) (x ∷ xs) = rw e at (r.chains c) in
      let distinct : Distinct (x ∷ xs) = rw e at (r.distinct c) in
      let fresh : has p (x ∷ xs) ≡ false = rw e at (taken c) in
      let fits : length (x ∷ xs) ≤ s.max_page_no = rw e at (length-IsFree r c) in
      let old : Chain cleared (head_of s c) (x ∷ xs) =
        Chain-update s.next (head_of s c) (x ∷ xs) p none chain fresh in
      let walk : last_node s.max_page_no cleared x ≡ some (last_of x xs) =
        last_node-last_of s.max_page_no cleared x xs old.1 (omega arith) in
      let head : s.heads c ≡ some x = ground (arith, chain.0) in
      let ny : Links = update cleared (last_of x xs) (some p) in
      let at_x : head_of s c ≡ some x = chain.0 in
      let last : has (last_of x xs) (f c) ≡ true = rw e (last_of-mem x xs) in
      (
        tt,
        record s { next = ny },
        rw (link_tail, head, walk) (ground arith),
        (
          rw e (
              IsRep-next s f r c ny (some x) (x ∷ xs ++ (p ∷ []))
                (Chain-append cleared x p xs (refl, old.1) distinct fresh (ground arith))
                (Distinct-snoc p (x ∷ xs) distinct fresh)
                (λ a i. ground (arith, has-append a (x ∷ xs) (p ∷ []), r.inside c a))
                (λ a d ne i.
                  ground (arith, has-append a (x ∷ xs) (p ∷ []), r.disjoint c d a ne, taken d))
                (λ a d ne i.
                  ground (arith, cleared-same a d ne i, r.disjoint c d (last_of x xs) ne last))
                (sym at_x)),
          (refl, refl, refl, refl),
          (λ a out ne. ground (arith, out c)),
        ),
      )

  pub append_block-Appended : Returns (λ _ t. Appended s f c p t) (append_block p c s)
  append_block-Appended = by_list (f c) refl
    where
      by_list : (xs : List ℕ) → f c ≡ xs → Returns (λ _ t. Appended s f c p t) (append_block p c s)
      by_list [] e = append-empty e
      by_list (x ∷ xs) e = append-tail x xs e

  -- Appending a page below `max_page_no` that is in no list succeeds for every block class: the page
  -- becomes the last one of its class, and every other list, the single-page buffer and the static
  -- numbers stay.
  pub append_block-IsRep :
      Returns (λ _ t. IsRep t (update f c (f c ++ (p ∷ []))) × Kept s t) (append_block p c s)
  append_block-IsRep =
      let (_, t, run, post) = append_block-Appended in (tt, t, run, (post.0, post.1))
