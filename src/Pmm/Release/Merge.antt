-- ===== src/Pmm/Release/Merge.antt =====
-- `free_helper` over the free lists.
use mathlib.Core.Path.{subst}
use bhos.Common.{
  ℕ, zero, suc, ◌+◌, ◌<◌, ◌≡◌, ◌≢◌, refl, ap, ◌∙◌, true, false, Option, none, some, List, [], ◌∷◌,
  ◌++◌, arith, ◌==◌, if◌then◌else◌, has, update, Returns, ok, fault, Fault, ◌>>=◌, Bool-cases, inl,
  inr, has-erase_ne, has-erase_self, Distinct,
}
use bhos.Pmm.{Pmm, erro_pop_block, get_partner_page_no, append_block, find_and_pop_block}
use bhos.Pmm.Free.{Lists}
use bhos.Pmm.Blocks.{IsRep, Kept}
use bhos.Pmm.Blocks.Append.{IsTaken, append_block-IsRep}
use bhos.Pmm.Blocks.Pop.{update_self_eq}
use bhos.Pmm.Blocks.Find.{
  removable, found-hit, found-miss, remaining, remaining-miss, find_and_pop_block-IsRep,
}
use bhos.Pmm.Release.{free_helper}
use bhos.Pmm.Release.Partner.{lower}

-- The free lists after a block of class `size` at `page_no` is given back: a partner that the search
-- finds leaves its list and the joined block goes on to the next class; any other block is put at
-- the end of its list. `none` where a joined block of two `_1024` blocks has no class left.
unfoldable pub free_lists : ℕ → ℕ → ℕ → Lists → Option Lists
free_lists zero page_no size f = none
free_lists (suc rounds) page_no size f =
    let partner = get_partner_page_no page_no size in
    let joined =
      free_lists rounds (lower page_no partner) (size + 1)
        (update f size (remaining partner (f size))) in
    if removable partner (f size) then joined else some (update f size (f size ++ (page_no ∷ [])))

-- What a run of the code has to do with the lists that the specification gives.
abbrev pub Frees : Pmm → Option Lists → ℕ → ℕ → ℕ → Type 0
Frees s none fuel page_no size = free_helper fuel page_no size s ≡ fault Fault.uninitialised
Frees s (some g) fuel page_no size =
    Returns (λ _ t. IsRep t g × Kept s t) (free_helper fuel page_no size s)

-- The lower of two partners is in no list once the found one is unlinked.
IsTaken-lower :
    (f : Lists) (c p q : ℕ)
    → IsTaken f p
    → Distinct (f c)
    → ((d : ℕ) → c ≢ d → has q (f d) ≡ false)
    → removable q (f c) ≡ true
    → IsTaken (update f c (remaining q (f c))) (lower p q)
unfolding remaining
IsTaken-lower f c p q taken distinct alone hit d = elim (Bool-cases (c == d)) [
  | inl e ↦
      rw (e, hit) (ground (arith, taken c, has-erase_self q (f c) distinct, has-erase_ne p q (f c)))
  | inr ne ↦ rw ne (ground (arith, taken d, alone d))
]

removable-mem : (q : ℕ) (xs : List ℕ) → removable q xs ≡ true → has q xs ≡ true
unfolding removable
removable-mem q [] h = absurd (ground arith)
removable-mem q (x ∷ []) h = ground arith
removable-mem q (x ∷ y ∷ ys) h = ground arith

-- At `_erro` no partner is looked for, and `append_block` has no list.
free_helper-erro :
    (s : Pmm) (fuel p : ℕ) → free_helper (suc fuel) p 11 s ≡ fault Fault.uninitialised
unfolding free_helper find_and_pop_block append_block
free_helper-erro s fuel p = refl

Kept-trans : (s t u : Pmm) → Kept s t → Kept t u → Kept s u
Kept-trans s t u a b = (b.0 ∙ a.0, b.1 ∙ a.1, b.2 ∙ a.2, b.3 ∙ a.3)

-- A call that makes another call in a later state does what that call does.
Frees-step :
    (s u : Pmm) (o : Option Lists) (m n p q c d : ℕ)
    → free_helper m p c s ≡ free_helper n q d u
    → Kept s u
    → Frees u o n q d
    → Frees s o m p c
Frees-step s u none m n p q c d e k h = e ∙ h
Frees-step s u (some g) m n p q c d e k (v, t, run, (rep, kept)) =
    (v, t, e ∙ run, (rep, Kept-trans s u t k kept))

-- The two outcomes of the search for the partner.
free_helper-hit :
    (s u : Pmm) (fuel p c : ℕ)
    → find_and_pop_block (get_partner_page_no p c) c s ≡ ok (get_partner_page_no p c, u)
    → get_partner_page_no p c < erro_pop_block
    → free_helper (suc fuel) p c s ≡ free_helper fuel (lower p (get_partner_page_no p c)) (c + 1) u
unfolding free_helper
free_helper-hit s u fuel p c run lt =
    let ne : (get_partner_page_no p c == erro_pop_block) ≡ false = ground arith in
    rw (◌>>=◌, run, ne)

free_helper-miss :
    (s u : Pmm) (fuel p c : ℕ)
    → find_and_pop_block (get_partner_page_no p c) c s ≡ ok (erro_pop_block, u)
    → free_helper (suc fuel) p c s ≡ append_block p c u
unfolding free_helper
free_helper-miss s u fuel p c run = rw (◌>>=◌, run)

-- `free_helper` refines the specification. For a block whose pages are in no list, of a class up to
-- `_1024`, on well-formed lists: where the specification gives lists, the call ends without a
-- fault and leaves exactly these lists; where it gives none, which is when two `_1024` partners are
-- joined, `append_block` reads a variable that was never set.
pub free_helper-refines :
    (rounds fuel : ℕ) (s : Pmm) (f : Lists) (p c : ℕ)
    → IsRep s f
    → IsTaken f p
    → p < s.max_page_no
    → s.max_page_no < erro_pop_block
    → rounds + c ≡ 11
    → rounds < fuel
    → Frees s (free_lists rounds p c f) fuel p c
unfolding free_lists
free_helper-refines rounds zero s f p c r taken lt small rc le = absurd (omega arith)
free_helper-refines zero (suc fuel) s f p c r taken lt small rc le =
    let e : c ≡ 11 = omega arith in rw e (free_helper-erro s fuel p)
free_helper-refines (suc rounds) (suc fuel) s f p c r taken lt small rc le =
    let q : ℕ = get_partner_page_no p c in
    let (v, u, run, post) = find_and_pop_block-IsRep s f r c q (omega arith) in
    let same_max : u.max_page_no ≡ s.max_page_no = post.2.1 in
    elim (Bool-cases (removable q (f c))) [
      | inl hit ↦
          let mem : has q (f c) ≡ true = removable-mem q (f c) hit in
          let below : q < s.max_page_no = r.inside c q mem in
          let is : v ≡ q = post.0 ∙ found-hit q (f c) hit in
          let taken_low =
            IsTaken-lower f c p q taken (r.distinct c) (λ d ne. r.disjoint c d q ne mem) hit in
          rw hit (
            Frees-step s u _ (suc fuel) fuel p (lower p q) c (c + 1)
              (free_helper-hit s u fuel p c (run ∙ ap (λ k. ok (k, u)) is) (omega arith)) post.2
              (free_helper-refines rounds fuel u (update f c (remaining q (f c))) (lower p q)
                (c + 1) post.1 taken_low (ground arith) (omega arith) (omega arith) (omega arith)))
      | inr miss ↦
          let is : v ≡ erro_pop_block = post.0 ∙ found-miss q (f c) miss in
          let rep : IsRep u f =
            subst (λ g. IsRep u g) (update_self_eq f c (f c) refl)
              (rw (remaining-miss q (f c) miss) at post.1) in
          let (w, t, put, post') =
            append_block-IsRep u f rep c p (omega arith) (omega arith) taken in
          rw miss (
            w,
            t,
            free_helper-miss s u fuel p c (run ∙ ap (λ k. ok (k, u)) is) ∙ put,
            (post'.0, Kept-trans s u t post.2 post'.1),
          )
    ]
