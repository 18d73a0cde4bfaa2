-- ===== src/Pmm/Request/Pages.antt =====
-- `pmm_alloc_pages` over the free lists.
use bhos.Common.{
  ℕ, zero, suc, ◌+◌, ◌*◌, ◌^◌, ◌≤◌, ◌<◌, ◌≡◌, refl, ap, ◌∙◌, ◌-◌, ◌⊎◌, inl, inr, Bool-cases, true,
  false, ◌||◌, List, [], ◌∷◌, arith, ltb, leb, ◌==◌, update, Returns, ok, fault, Fault, ◌>>=◌, ◌>>◌,
  sub32, u32,
}
use bhos.Chain.{last_of}
use bhos.Chain.Remove.{drop_last}
use bhos.Pmm.{Pmm, erro_pop_block, class_erro, page_no_to_addr, append_block}
use bhos.Pmm.Free.{Lists}
use bhos.Pmm.Blocks.{IsRep, Kept}
use bhos.Pmm.Blocks.Pop.{popped, rest, pop_block-IsRep, pop_block-nil}
use bhos.Pmm.Request.{class_of, find_class, alloc_helper, finish_alloc, pmm_alloc_pages, failed}
use bhos.Pmm.Request.Class.{class_of-least}

-- Every list from class `c` up to class `d`, without `d`, is empty.
abbrev pub AreEmpty : Lists → ℕ → ℕ → Type 0
AreEmpty f c d = (e : ℕ) → c ≤ e → e < d → f e ≡ []

-- The three parts of `pmm_alloc_pages`, on plain values.
start_alloc :
    (s t : Pmm) (n : ℕ) (q : ℕ × ℕ)
    → 0 < n
    → n ≤ 1024
    → find_class 12 (class_of n) s ≡ ok (q, t)
    → pmm_alloc_pages n s ≡ finish_alloc (class_of n) q t
unfolding pmm_alloc_pages
start_alloc s t n q pos le run =
    let in_range : (ltb 1024 n || n == 0) ≡ false = ground arith in rw (in_range, ◌>>=◌, run)

finish_alloc-exact :
    (t : Pmm) (c p : ℕ)
    → p < erro_pop_block
    → finish_alloc c (c, p) t ≡ ok (record { addr = page_no_to_addr t p; size = c; state = 1 }, t)
unfolding finish_alloc alloc_helper
finish_alloc-exact t c p small =
    let usable : (p == erro_pop_block) ≡ false = ground arith in
    let here : (c == c) ≡ true = ground arith in rw (usable, ◌>>=◌, alloc_helper, here)

finish_alloc-split :
    (t : Pmm) (c d p : ℕ)
    → c < d
    → 12 ≤ p
    → p < erro_pop_block
    → finish_alloc c (d, p) t ≡ fault Fault.uninitialised
unfolding finish_alloc alloc_helper append_block
finish_alloc-split t c d p lt far small =
    let usable : (p == erro_pop_block) ≡ false = ground arith in
    let there : (d == c) ≡ false = ground arith in
    let no_class : leb (sub32 p 1) 10 ≡ false = ground arith in
    rw (usable, ◌>>=◌, alloc_helper, there, ◌>>◌, append_block, no_class)

module _ (s : Pmm) (f : Lists) (r : IsRep s f) where
  -- The loop over the classes passes the empty ones.
  find_class-skip :
      (k m n c d : ℕ)
      → m ≡ k + n
      → d ≡ c + k
      → d ≤ 11
      → AreEmpty f c d
      → find_class m c s ≡ find_class n d s
  unfolding find_class
  find_class-skip zero m n c d em ed le empty =
      let p : m ≡ n = omega arith in let q : d ≡ c = omega arith in rw (p, q)
  find_class-skip (suc k) zero n c d em ed le empty = absurd (omega arith)
  find_class-skip (suc k) (suc m) n c d em ed le empty =
      let lt : ltb c class_erro ≡ true = ground arith in
      rw
        (
          lt,
          find_class,
          ◌>>=◌,
          pop_block-nil s f r c (omega arith) (empty c (omega arith) (omega arith)),
        )
        (find_class-skip k m n (c + 1) d (omega arith) (omega arith) le
          (λ e a b. empty e (omega arith) b))

  -- With no block of the wanted class or of a greater one the loop reports none.
  find_class-none :
      (c : ℕ) → c ≤ 11 → AreEmpty f c 11 → find_class 12 c s ≡ ok ((11, erro_pop_block), s)
  unfolding find_class
  find_class-none c le empty =
      rw (find_class-skip (11 - c) 12 (1 + c) c 11 (omega arith) (omega arith) (omega arith) empty)
        (at_end c)
    where
      at_end : (n : ℕ) → find_class (1 + n) 11 s ≡ ok ((11, erro_pop_block), s)
      at_end n = let p : 1 + n ≡ suc n = omega arith in rw p

  -- Otherwise it pops from the first class with a block.
  find_class-some :
      (c d x : ℕ) (xs : List ℕ)
      → c ≤ d
      → d ≤ 10
      → AreEmpty f c d
      → f d ≡ x ∷ xs
      → last_of x xs < erro_pop_block
      → Returns
          (λ q t. (q ≡ (d, last_of x xs)) × IsRep t (update f d (drop_last x xs)) × Kept s t)
          (find_class 12 c s)
  unfolding find_class popped rest
  find_class-some c d x xs le le10 empty e small =
      let (q, t, run, post) = pop_block-IsRep s f r d le10 in
      let is_last : q ≡ last_of x xs = rw e at post.0 in
      let ne : (q == erro_pop_block) ≡ false = ground arith in
      let lt : ltb d class_erro ≡ true = ground arith in
      let fuel : 12 - (d - c) ≡ suc (11 - (d - c)) = omega arith in
      (
        (d, q),
        t,
        rw (
          find_class-skip (d - c) 12 (12 - (d - c)) c d (omega arith) (omega arith) (omega arith)
              empty,
          fuel,
          lt,
          find_class,
          ◌>>=◌,
          run,
          ne,
        ),
        (ap (λ k. (d, k)) is_last, rw e at post.1, post.2),
      )

  -- A request outside 1 to 1024 pages fails, and so does one when no block of its class or of a
  -- greater one is free. The state stays as it is.
  pub pmm_alloc_pages-failed :
      (n : ℕ)
      → ((n ≡ 0) ⊎ (1024 < n)) ⊎ AreEmpty f (class_of n) 11
      → pmm_alloc_pages n s ≡ ok (failed, s)
  unfolding pmm_alloc_pages finish_alloc
  pmm_alloc_pages-failed n (inl out) = ground arith
  pmm_alloc_pages-failed n (inr empty) = elim (Bool-cases (ltb 1024 n || n == 0)) [
    | inl out ↦ rw out
    | inr in_range ↦
        let bounds = class_of-least n (ground arith) (ground arith) in
        rw (in_range, ◌>>=◌, find_class-none (class_of n) (omega arith) empty)
  ]

  module _ (n d x : ℕ) (xs : List ℕ) (pos : 0 < n) (le : n ≤ 1024) (le10 : d ≤ 10)
      (e : f d ≡ x ∷ xs) (small : last_of x xs < erro_pop_block) where
    -- When the list of the request's own class has a block, the request gets the last one of it: its
    -- address and class are returned, it leaves the list, and nothing else changes.
    pub pmm_alloc_pages-exact :
        class_of n ≡ d
        → Returns
            (λ a t.
              (a ≡ record { addr = page_no_to_addr s (last_of x xs); size = d; state = 1 })
              × IsRep t (update f d (drop_last x xs))
              × Kept s t)
            (pmm_alloc_pages n s)
    unfolding page_no_to_addr
    pmm_alloc_pages-exact own =
        let (q, t, run, post) =
          find_class-some (class_of n) d x xs (omega arith) le10 (λ k a b. absurd (omega arith)) e
            small in
        (
          record { addr = page_no_to_addr s (last_of x xs); size = d; state = 1 },
          t,
          start_alloc s t n q pos le run
              ∙ ap (λ k. finish_alloc (class_of n) k t) post.0
              ∙ ap (λ k. finish_alloc k (d, last_of x xs) t) own
              ∙ finish_alloc-exact t d (last_of x xs) small
              ∙ ap
                  (λ k. ok (
                    record { addr = u32 (u32 (last_of x xs * 2 ^ 12) + k); size = d; state = 1 },
                    t,
                  ))
                  post.2.0,
          (refl, post.1, post.2),
        )

    -- When the first class with a block is greater than the request's, the block has to be split, and
    -- `alloc_helper` hands a page number to `append_block` where a class belongs: for a block
    -- that begins at page 12 or later the call reads a variable that was never set.
    pub pmm_alloc_pages-split :
        class_of n < d
        → AreEmpty f (class_of n) d
        → 12 ≤ last_of x xs
        → pmm_alloc_pages n s ≡ fault Fault.uninitialised
    pmm_alloc_pages-split lt empty far =
        let (q, t, run, post) =
          find_class-some (class_of n) d x xs (omega arith) le10 empty e small in
        start_alloc s t n q pos le run
        ∙ ap (λ k. finish_alloc (class_of n) k t) post.0
        ∙ finish_alloc-split t (class_of n) d (last_of x xs) lt far small
