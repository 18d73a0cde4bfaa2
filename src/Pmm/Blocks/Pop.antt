-- ===== src/Pmm/Blocks/Pop.antt =====
-- `pop_block` takes the last page from the list of a class.
use mathlib.Core.Path.{fun_ext, subst}
use bhos.Common.{
  ℕ, ◌≤◌, ◌≡◌, refl, sym, true, none, some, List, [], ◌∷◌, arith, has, Distinct, update, length, ok,
  Returns, ◌==◌,
}
use bhos.Chain.{Links, Chain, last_of}
use bhos.Chain.Remove.{
  before_last, before_last-penultimate, penultimate, penultimate-mem, next-penultimate, drop_last,
  has-drop_last, Distinct-drop_last, Chain-drop_last,
}
use bhos.Pmm.{Pmm, pop_block, pop_tail, erro_pop_block}
use bhos.Pmm.Free.{Lists, length-IsFree}
use bhos.Pmm.Blocks.Rep.{head_of, IsRep, Kept, IsRep-heads, IsRep-next}

-- What popping a list returns, and what it leaves.
unfoldable pub popped : List ℕ → ℕ
popped [] = erro_pop_block
popped (x ∷ xs) = last_of x xs

unfoldable pub rest : List ℕ → List ℕ
rest [] = []
rest (x ∷ xs) = drop_last x xs

pub update_self_eq : (f : Lists) (c : ℕ) (xs : List ℕ) → f c ≡ xs → update f c xs ≡ f
update_self_eq f c xs e = fun_ext λ d. ground (arith, at c d)
  where
    at : (a b : ℕ) → (a == b) ≡ true → f b ≡ f a
    at a b h = ground arith

-- The walk to the page before the last one of a list, and the state with its link cut.
module _ (s : Pmm) (f : Lists) (r : IsRep s f) (c x y : ℕ) (ys : List ℕ)
    (e : f c ≡ x ∷ y ∷ ys) where
  pub cut-IsRep :
      (before_last s.max_page_no s.next x ≡ some (penultimate x y ys))
      × (s.next (penultimate x y ys) ≡ some (last_of y ys))
      × IsRep
          (record s { next = update s.next (penultimate x y ys) none })
          (update f c (x ∷ drop_last y ys))
  cut-IsRep =
      let chain : Chain s.next (head_of s c) (x ∷ y ∷ ys) = rw e at (r.chains c) in
      let distinct : Distinct (x ∷ y ∷ ys) = rw e at (r.distinct c) in
      let fits : length (x ∷ y ∷ ys) ≤ s.max_page_no = rw e at (length-IsFree r c) in
      let pen : ℕ = penultimate x y ys in
      let ny : Links = update s.next pen none in
      let pen_in : has pen (x ∷ drop_last y ys) ≡ true = penultimate-mem x y ys in
      let still : (a : ℕ) → has a (x ∷ drop_last y ys) ≡ true → has a (f c) ≡ true =
        λ a i. rw e (ground (arith, has-drop_last a x (y ∷ ys) distinct)) in
      (
        before_last-penultimate s.max_page_no s.next x y ys chain.1 (omega arith),
        next-penultimate s.next x y ys chain.1,
        IsRep-next s f r c ny (some x) (x ∷ drop_last y ys)
            (refl, Chain-drop_last s.next x y ys chain.1 distinct)
            (Distinct-drop_last x (y ∷ ys) distinct) (λ a i. r.inside c a (still a i))
            (λ a d ne i. r.disjoint c d a ne (still a i))
            (λ a d ne i. ground (arith, r.disjoint c d pen ne (still pen pen_in))) (sym chain.0),
      )

module _ (s : Pmm) (f : Lists) (r : IsRep s f) (c : ℕ) (le : c ≤ 10) where
  Popped : List ℕ → Type 0
  Popped xs =
      Returns (λ q t. (q ≡ popped xs) × IsRep t (update f c (rest xs)) × Kept s t) (pop_block c s)

  pop-nil : f c ≡ [] → Popped []
  unfolding Popped popped rest pop_block
  pop-nil e =
      let none_at : s.heads c ≡ none = ground (arith, r.chains c) in
      (
        erro_pop_block,
        s,
        ground arith,
        (refl, subst (λ g. IsRep s g) (sym (update_self_eq f c [] e)) r, (refl, refl, refl, refl)),
      )

  pop-one : (x : ℕ) → f c ≡ x ∷ [] → Popped (x ∷ [])
  unfolding Popped popped rest pop_block
  pop-one x e =
      let chain : Chain s.next (head_of s c) (x ∷ []) = rw e at (r.chains c) in
      let head : s.heads c ≡ some x = ground (arith, chain.0) in
      let alone : s.next x ≡ none = chain.1 in
      (
        x,
        record s { heads = update s.heads c none },
        rw (head, alone) (ground arith),
        (
          refl,
          IsRep-heads s f r c s.next none [] refl tt (λ a i. ground arith)
              (λ a d ne i. ground arith) (λ a d ne i. refl) le,
          (refl, refl, refl, refl),
        ),
      )

  pop-more : (x y : ℕ) (ys : List ℕ) → f c ≡ x ∷ y ∷ ys → Popped (x ∷ y ∷ ys)
  unfolding Popped popped rest pop_block
  pop-more x y ys e =
      let chain : Chain s.next (head_of s c) (x ∷ y ∷ ys) = rw e at (r.chains c) in
      let head : s.heads c ≡ some x = ground (arith, chain.0) in
      let (walk, last, rep) = cut-IsRep s f r c x y ys e in
      (
        last_of y ys,
        record s { next = update s.next (penultimate x y ys) none },
        rw (head, chain.1.0, pop_tail, walk, last) (ground arith),
        (refl, rep, (refl, refl, refl, refl)),
      )

  pub pop_block-nil : f c ≡ [] → pop_block c s ≡ ok (erro_pop_block, s)
  unfolding pop_block
  pop_block-nil e = let none_at : s.heads c ≡ none = ground (arith, r.chains c) in ground arith

  -- On the list of a block class, `pop_block` returns the last page and leaves the others in order;
  -- on an empty list it returns the error number. It never faults, and changes nothing else.
  pub pop_block-IsRep :
      Returns
        (λ q t. (q ≡ popped (f c)) × IsRep t (update f c (rest (f c))) × Kept s t)
        (pop_block c s)
  unfolding Popped
  pop_block-IsRep = by_list (f c) refl
    where
      by_list : (xs : List ℕ) → f c ≡ xs → Popped (f c)
      by_list [] e = rw e (pop-nil e)
      by_list (x ∷ []) e = rw e (pop-one x e)
      by_list (x ∷ y ∷ ys) e = rw e (pop-more x y ys e)
