-- ===== src/Pmm/Release/Page.antt =====
-- `pmm_free_page`: page numbers and addresses, the single-page buffer, and the buddy system.
use bhos.Common.{
  ℕ, ◌-◌, ◌^◌, ◌≤◌, ◌<◌, ◌≡◌, refl, sym, true, false, none, some, List, [], ◌∷◌, ◌++◌, arith, ltb,
  has, update, Returns, ok, ◌>>=◌, ◌>>◌, Distinct, length, Distinct-snoc, has-append,
}
use bhos.Chain.{Links, Chain, last_of, last_of-mem, last_node, last_node-last_of}
use bhos.Chain.Append.{Chain-append}
use bhos.Pmm.{Pmm, Alloc, page_no_to_addr, addr_to_page_no, erro_pop_block}
use bhos.Pmm.Free.{Lists, length-IsFree}
use bhos.Pmm.Blocks.{IsRep, IsRep-single, IsRep-next, Kept}
use bhos.Pmm.Blocks.Append.{IsTaken}
use bhos.Pmm.Release.{free_helper, free_single, pmm_free_page}
use bhos.Pmm.Release.Merge.{free_lists, Frees, free_helper-refines}

-- A page number below 2^20 is recovered from its address, wherever the managed pages start.
pub addr_to_page_no-page_no_to_addr :
    (s : Pmm) (p : ℕ)
    → p < 2 ^ 20
    → s.page_start < 2 ^ 32
    → addr_to_page_no s (page_no_to_addr s p) ≡ p
unfolding addr_to_page_no page_no_to_addr
addr_to_page_no-page_no_to_addr s p lt start = omega arith

module _ (s : Pmm) (f : Lists) (r : IsRep s f) (b : Alloc) where
  -- A block whose address lies outside the managed pages is refused, and nothing changes.
  pub pmm_free_page-outside :
      s.max_page_no ≤ addr_to_page_no s b.addr → pmm_free_page b s ≡ ok (false, s)
  unfolding pmm_free_page
  pmm_free_page-outside far = ground arith

  module _ (p : ℕ) (at : addr_to_page_no s b.addr ≡ p) (lt : p < s.max_page_no)
      (taken : IsTaken f p) where
    free_single-IsRep :
        (xs : List ℕ)
        → f 11 ≡ xs
        → s.next p ≡ none
        → Returns (λ _ t. IsRep t (update f 11 (f 11 ++ (p ∷ [])))) (free_single p s)
    unfolding free_single
    free_single-IsRep [] e cut =
        let empty : s.single ≡ none = ground (arith, r.chains 11) in
        (
          tt,
          record s { single = some p },
          rw empty,
          rw e (
              IsRep-single s f r s.next (some p) (p ∷ []) (refl, cut) (refl, tt)
                (λ a i. ground arith) (λ a d ne i. ground (arith, taken d)) (λ a d ne i. refl)),
        )
    free_single-IsRep (x ∷ xs) e cut =
        let chain : Chain s.next s.single (x ∷ xs) = rw e at (r.chains 11) in
        let distinct : Distinct (x ∷ xs) = rw e at (r.distinct 11) in
        let fresh : has p (x ∷ xs) ≡ false = rw e at (taken 11) in
        let fits : length (x ∷ xs) ≤ s.max_page_no = rw e at (length-IsFree r 11) in
        let walk : last_node s.max_page_no s.next x ≡ some (last_of x xs) =
          last_node-last_of s.max_page_no s.next x xs chain.1 (omega arith) in
        let last : has (last_of x xs) (f 11) ≡ true = rw e (last_of-mem x xs) in
        let ny : Links = update s.next (last_of x xs) (some p) in
        (
          tt,
          record s { next = ny },
          ground arith,
          rw e (
              IsRep-next s f r 11 ny (some x) (x ∷ xs ++ (p ∷ []))
                (Chain-append s.next x p xs (refl, chain.1) distinct fresh cut)
                (Distinct-snoc p (x ∷ xs) distinct fresh)
                (λ a i. ground (arith, has-append a (x ∷ xs) (p ∷ []), r.inside 11 a))
                (λ a d ne i.
                  ground (arith, has-append a (x ∷ xs) (p ∷ []), r.disjoint 11 d a ne, taken d))
                (λ a d ne i. ground (arith, r.disjoint 11 d (last_of x xs) ne last)) (sym chain.0)),
        )

    -- A page from `singel_page_first_no` on that is in no list and links nowhere goes to the end of
    -- the single-page buffer; all other lists stay, and the call reports success.
    pub pmm_free_page-single :
        s.single_first ≤ p
        → s.next p ≡ none
        → Returns (λ v t. (v ≡ true) × IsRep t (update f 11 (f 11 ++ (p ∷ [])))) (pmm_free_page b s)
    unfolding pmm_free_page
    pmm_free_page-single high cut =
        let (v, t, run, rep) = free_single-IsRep (f 11) refl cut in
        let run' : free_single (addr_to_page_no s b.addr) s ≡ ok (v, t) = rw at run in
        let in_range : ltb (addr_to_page_no s b.addr) s.max_page_no ≡ true = ground arith in
        let not_buddy : ltb (addr_to_page_no s b.addr) s.single_first ≡ false = ground arith in
        (true, t, rw (in_range, not_buddy, ◌>>◌, ◌>>=◌, run'), (refl, rep))

    -- A block of the buddy system that is in no list, of a class up to `_1024`, is joined with its
    -- free partners as the specification `free_lists` says, and the call reports success, wherever
    -- the specification gives lists.
    pub pmm_free_page-buddy :
        (g : Lists)
        → p < s.single_first
        → b.size ≤ 10
        → s.max_page_no < erro_pop_block
        → free_lists (11 - b.size) p b.size f ≡ some g
        → Returns (λ v t. (v ≡ true) × IsRep t g × Kept s t) (pmm_free_page b s)
    unfolding pmm_free_page
    pmm_free_page-buddy g low le small e =
        let in_range : ltb (addr_to_page_no s b.addr) s.max_page_no ≡ true = ground arith in
        let buddy : ltb (addr_to_page_no s b.addr) s.single_first ≡ true = ground arith in
        let done : Frees s (some g) 12 p b.size = rw e at (
          free_helper-refines (11 - b.size) 12 s f p b.size r taken lt small (omega arith)
            (omega arith)) in
        let run : free_helper 12 (addr_to_page_no s b.addr) b.size s ≡ ok (done.0, done.1) =
          rw at done.2 in
        (true, done.1, rw (in_range, buddy, ◌>>◌, ◌>>=◌, run), (refl, done.3.0, done.3.1))
