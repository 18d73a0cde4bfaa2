-- ===== src/Pmm/Blocks/Find.antt =====
-- `find_and_pop_block` looks for a page in the list of a class and unlinks it.
use mathlib.Core.Path.{subst}
use bhos.Common.{
  ℕ, ◌≤◌, ◌≡◌, refl, sym, Bool, true, false, none, some, List, [], ◌∷◌, arith, has, Distinct,
  update, length, Returns, ok, ◌==◌, if◌then◌else◌, erase, Distinct-erase, has-erase_ne,
  has-erase_self, Bool-cases, eq→==, ==→eq, inl, inr, ◌>>=◌, leb,
}
use bhos.Chain.{Links, Chain, last_of, last_of-mem}
use bhos.Chain.Remove.{find_before_lem, prev_of, prev_of-mem, next-prev_of, Chain-erase}
use bhos.Pmm.{Pmm, find_and_pop_block, find_walk, is_none, erro_pop_block}
use bhos.Pmm.Free.{Lists, length-IsFree}
use bhos.Pmm.Blocks.Rep.{head_of, IsRep, Kept, IsRep-next}
use bhos.Pmm.Blocks.Pop.{pop_block-IsRep, update_self_eq, popped, rest}

-- Which pages the search finds: any but the first of two or more.
unfoldable pub removable : ℕ → List ℕ → Bool
removable t [] = false
removable t (x ∷ []) = x == t
removable t (x ∷ y ∷ ys) = has t (y ∷ ys)

-- What the search returns, and what it leaves.
unfoldable pub found : ℕ → List ℕ → ℕ
found t xs = if removable t xs then t else erro_pop_block

unfoldable pub remaining : ℕ → List ℕ → List ℕ
remaining t xs = if removable t xs then erase t xs else xs

pub found-hit : (t : ℕ) (xs : List ℕ) → removable t xs ≡ true → found t xs ≡ t
unfolding found
found-hit t xs h = rw h

pub found-miss : (t : ℕ) (xs : List ℕ) → removable t xs ≡ false → found t xs ≡ erro_pop_block
unfolding found
found-miss t xs h = rw h

pub remaining-miss : (t : ℕ) (xs : List ℕ) → removable t xs ≡ false → remaining t xs ≡ xs
unfolding remaining
remaining-miss t xs h = rw h

module _ (s : Pmm) (f : Lists) (r : IsRep s f) (c t : ℕ) (le : c ≤ 10) where
  abbrev Removed : List ℕ → Type 0
  Removed xs =
      Returns (λ q u. (q ≡ found t xs) × IsRep u (update f c (remaining t xs)) × Kept s u)
        (find_and_pop_block t c s)

  -- Nothing is found, and nothing changes.
  find-unchanged :
      (xs : List ℕ)
      → f c ≡ xs
      → removable t xs ≡ false
      → find_and_pop_block t c s ≡ ok (erro_pop_block, s)
      → Removed xs
  unfolding found remaining
  find-unchanged xs e out run = (
    erro_pop_block,
    s,
    run,
    (
      rw out,
      rw out (subst (λ g. IsRep s g) (sym (update_self_eq f c xs e)) r),
      (refl, refl, refl, refl),
    ),
  )

  find-nil : f c ≡ [] → Removed []
  unfolding removable find_and_pop_block
  find-nil e =
      let none_at : s.heads c ≡ none = ground (arith, r.chains c) in
      find-unchanged [] e refl (ground arith)

  find-one : (x : ℕ) → f c ≡ x ∷ [] → Removed (x ∷ [])
  unfolding removable found remaining find_and_pop_block is_none popped rest
  find-one x e =
      let chain : Chain s.next (head_of s c) (x ∷ []) = rw e at (r.chains c) in
      let fits : length (x ∷ []) ≤ s.max_page_no = rw e at (length-IsFree r c) in
      let head : s.heads c ≡ some x = ground (arith, chain.0) in
      let alone : s.next x ≡ none = chain.1 in
      let le10 : leb c 10 ≡ true = ground arith in
      let (q, u, run, post) = pop_block-IsRep s f r c le in
      elim (Bool-cases (x == t)) [
        | inl hit ↦ (
          t,
          u,
          rw (le10, head, alone, hit, ◌>>=◌, run),
          (rw hit, rw (hit, eq→== t x (sym (==→eq x t hit))) (rw e at post.1), post.2),
        )
        | inr miss ↦ find-unchanged (x ∷ []) e miss (
            rw (
              le10,
              head,
              alone,
              miss,
              find_walk,
              find_before_lem s.max_page_no s.next x [] t alone (omega arith),
              miss,
            ))
      ]

  find-more : (x y : ℕ) (ys : List ℕ) → f c ≡ x ∷ y ∷ ys → Removed (x ∷ y ∷ ys)
  unfolding removable found remaining find_and_pop_block is_none
  find-more x y ys e =
      let chain : Chain s.next (head_of s c) (x ∷ y ∷ ys) = rw e at (r.chains c) in
      let distinct : Distinct (x ∷ y ∷ ys) = rw e at (r.distinct c) in
      let fits : length (x ∷ y ∷ ys) ≤ s.max_page_no = rw e at (length-IsFree r c) in
      let head : s.heads c ≡ some x = ground (arith, chain.0) in
      let second : s.next x ≡ some y = chain.1.0 in
      let le10 : leb c 10 ≡ true = ground arith in
      let last_in = last_of-mem y ys in
      let walk = find_before_lem s.max_page_no s.next x (y ∷ ys) t chain.1 (omega arith) in
      elim (Bool-cases (has t (y ∷ ys))) [
        | inl hit ↦
            let prev : ℕ = prev_of x (y ∷ ys) t in
            let next_prev = next-prev_of s.next x (y ∷ ys) t chain.1 hit in
            let ny : Links = update s.next prev (s.next t) in
            let prev_in : has prev (f c) ≡ true = rw e (prev_of-mem x (y ∷ ys) t) in
            let still : (a : ℕ) → has a (x ∷ erase t (y ∷ ys)) ≡ true → has a (f c) ≡ true = λ a i.
              rw e
                (ground (arith, has-erase_ne a t (y ∷ ys), has-erase_self t (y ∷ ys) distinct.1)) in
            let kept : erase t (x ∷ y ∷ ys) ≡ x ∷ erase t (y ∷ ys) = ground arith in
            (
              t,
              record s { next = ny },
              rw (le10, head, second, find_walk, walk, hit, next_prev),
              (
                rw hit,
                rw (hit, kept)
                    (IsRep-next s f r c ny (some x) (x ∷ erase t (y ∷ ys))
                      (refl, Chain-erase s.next x (y ∷ ys) t chain.1 distinct hit)
                      (ground
                        (arith, Distinct-erase t (y ∷ ys) distinct.1, has-erase_ne x t (y ∷ ys)))
                      (λ a i. r.inside c a (still a i))
                      (λ a d ne i. r.disjoint c d a ne (still a i))
                      (λ a d ne i. ground (arith, r.disjoint c d prev ne prev_in)) (sym chain.0)),
                (refl, refl, refl, refl),
              ),
            )
        | inr miss ↦ find-unchanged (x ∷ y ∷ ys) e miss (
            let other : (last_of x (y ∷ ys) == t) ≡ false = ground (arith, last_in) in
            rw (le10, head, second, find_walk, walk, miss, other))
      ]

  -- On a block class `find_and_pop_block` returns the wanted page and unlinks it alone, the others
  -- keeping their order, when the list has that page behind its first one or consists of it.
  -- Otherwise it returns the error number and the lists stay. It never faults, and changes nothing
  -- else.
  pub find_and_pop_block-IsRep :
      Returns
        (λ q u. (q ≡ found t (f c)) × IsRep u (update f c (remaining t (f c))) × Kept s u)
        (find_and_pop_block t c s)
  find_and_pop_block-IsRep = by_list (f c) refl
    where
      by_list : (xs : List ℕ) → f c ≡ xs → Removed (f c)
      by_list [] e = rw e (find-nil e)
      by_list (x ∷ []) e = rw e (find-one x e)
      by_list (x ∷ y ∷ ys) e = rw e (find-more x y ys e)

  -- The first page of a list of two or more is not found: the search reports an error for it, and
  -- the page stays in the list.
  pub find_and_pop_block-head :
      (y : ℕ) (ys : List ℕ)
      → f c ≡ t ∷ y ∷ ys
      → Returns (λ q u. (q ≡ erro_pop_block) × IsRep u f) (find_and_pop_block t c s)
  unfolding found remaining removable
  find_and_pop_block-head y ys e =
      let (q, u, run, post) = find_and_pop_block-IsRep in
      let distinct : Distinct (t ∷ y ∷ ys) = rw e at (r.distinct c) in
      let out : removable t (f c) ≡ false = rw e distinct.0 in
      (
        q,
        u,
        run,
        (
          rw out at post.0,
          subst (λ g. IsRep u g) (update_self_eq f c (f c) refl) (rw out at post.1),
        ),
      )
