-- ===== src/Pmm/Request/Single.antt =====
-- `pmm_alloc_one_page` over the free lists.
use bhos.Common.{ℕ, ◌≡◌, refl, none, List, [], ◌∷◌, arith, update, Returns}
use bhos.Chain.{Chain, last_of}
use bhos.Chain.Remove.{drop_last, penultimate}
use bhos.Pmm.{Pmm}
use bhos.Pmm.Free.{Lists}
use bhos.Pmm.Blocks.{IsRep, IsRep-single}
use bhos.Pmm.Blocks.Pop.{cut-IsRep}
use bhos.Pmm.Request.{one_page, alloc_tail, pmm_alloc_one_page, pmm_alloc_pages}

-- What no allocation from the single-page buffer changes.
abbrev pub KeptClasses : Pmm → Pmm → Type 0
KeptClasses s t =
    (t.page_start ≡ s.page_start)
    × (t.max_page_no ≡ s.max_page_no)
    × (t.single_first ≡ s.single_first)
    × (t.heads ≡ s.heads)

module _ (s : Pmm) (f : Lists) (r : IsRep s f) where
  -- With an empty buffer a single page comes from the buddy system.
  pub pmm_alloc_one_page-nil : f 11 ≡ [] → pmm_alloc_one_page s ≡ pmm_alloc_pages 1 s
  unfolding pmm_alloc_one_page
  pmm_alloc_one_page-nil e = let empty : s.single ≡ none = ground (arith, r.chains 11) in rw empty

  -- With pages in the buffer a single page is the last one of the buffer, which keeps the others in
  -- order; the buddy lists and the static numbers stay.
  pub pmm_alloc_one_page-cons :
      (x : ℕ) (xs : List ℕ)
      → f 11 ≡ x ∷ xs
      → Returns
          (λ a t.
            (a ≡ one_page s (last_of x xs))
            × IsRep t (update f 11 (drop_last x xs))
            × KeptClasses s t)
          (pmm_alloc_one_page s)
  unfolding pmm_alloc_one_page alloc_tail
  pmm_alloc_one_page-cons x [] e =
      let chain : Chain s.next s.single (x ∷ []) = rw e at (r.chains 11) in
      (
        one_page s x,
        record s { single = none },
        rw (chain.0, chain.1),
        (
          refl,
          IsRep-single s f r s.next none [] refl tt (λ a i. ground arith) (λ a d ne i. ground arith)
              (λ a d ne i. refl),
          (refl, refl, refl, refl),
        ),
      )
  pmm_alloc_one_page-cons x (y ∷ ys) e =
      let chain : Chain s.next s.single (x ∷ y ∷ ys) = rw e at (r.chains 11) in
      let (walk, last, rep) = cut-IsRep s f r 11 x y ys e in
      (
        one_page s (last_of y ys),
        record s { next = update s.next (penultimate x y ys) none },
        rw (chain.0, chain.1.0, alloc_tail, walk, last),
        (refl, rep, (refl, refl, refl, refl)),
      )
