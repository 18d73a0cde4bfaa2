-- ===== src/Pmm/Setup/Single.antt =====
-- The single-page buffer that `pmm_page_init` links together.
use bhos.Common.{
  ℕ, zero, suc, ◌+◌, ◌-◌, ◌<◌, ◌≤◌, ◌≡◌, refl, ap, ◌∙◌, arith, Bool-cases, inl, inr, none, some,
  List, [], ◌∷◌, has, Distinct, update, ltb, leb, ◌==◌, ◌&&◌, if◌then◌else◌, Returns, ok,
}
use bhos.Chain.{Links, Chain}
use bhos.Pmm.{Pmm}
use bhos.Pmm.Free.{Lists}
use bhos.Pmm.Blocks.{IsRep, IsRep-single}
use bhos.Pmm.Setup.{put_singles, put_buffer}
use bhos.Pmm.Setup.Fill.{IsFilled, IsFilled-IsTaken}

-- `n` pages from a page on.
abbrev pub range : ℕ → ℕ → List ℕ
range zero page = []
range (suc n) page = page ∷ range n (suc page)

pub has-range : (a n page : ℕ) → has a (range n page) ≡ (leb page a && ltb a (page + n))
has-range a zero page = ground arith
has-range a (suc n) page = ground (arith, has-range a n (suc page))

Distinct-range : (n page : ℕ) → Distinct (range n page)
Distinct-range zero page = tt
Distinct-range (suc n) page =
    (ground (arith, has-range page n (suc page)), Distinct-range n (suc page))

-- Each page from `page` on links to the next one, the last of `n` to none.
Chain-range :
    (n page : ℕ) (nx : Links)
    → ((a : ℕ) → page ≤ a → a < page + n → nx a ≡ some (suc a))
    → nx (page + n) ≡ none
    → Chain nx (some page) (range (suc n) page)
Chain-range zero page nx link end = (refl, ap nx (omega arith) ∙ end)
Chain-range (suc n) page nx link end =
    let rest =
      Chain-range n (suc page) nx (λ a u v. link a (omega arith) (omega arith))
        (ap nx (omega arith) ∙ end) in
    (refl, rw (link page (omega arith) (omega arith)) rest)

put_singles-step :
    (n p x : ℕ) (s : Pmm)
    → s.single ≡ some x
    → put_singles (suc n) (p + 1) (some p) s
      ≡ put_singles n
          (p + 1 + 1)
          (some (p + 1))
          (record s { next = update s.next p (some (p + 1)) })
unfolding put_singles
put_singles-step n p x s e j = elim (e j) [
  | none ↦ put_singles n (p + 1 + 1) (some (p + 1)) (record s { single = some (p + 1) })
  | some _ ↦
      put_singles n (p + 1 + 1) (some (p + 1)) (record s { next = update s.next p (some (p + 1)) })
]

-- The links after `n` pages have been put behind `p`.
put_singles-links :
    (n p x : ℕ) (s : Pmm)
    → s.single ≡ some x
    → (nx : Links) × (put_singles n (p + 1) (some p) s ≡ ok (tt, record s { next = nx }))
      × ((a : ℕ) → nx a ≡ (if leb p a && ltb a (p + n) then some (suc a) else s.next a))
unfolding put_singles
put_singles-links zero p x s e = (s.next, refl, (λ a. ground arith))
put_singles-links (suc n) p x s e =
    let (nx, run, links) =
      put_singles-links n (p + 1) x (record s { next = update s.next p (some (p + 1)) }) e in
    (
      nx,
      put_singles-step n p x s e ∙ run,
      (λ a. links a ∙ elim (Bool-cases (p == a)) [ inl f ↦ ground arith | inr f ↦ ground arith ]),
    )

put_buffer-links :
    (n page : ℕ) (s : Pmm)
    → s.single ≡ none
    → s.max_page_no ≡ page + suc n
    → (nx : Links) × (put_buffer page s
        ≡ ok (tt, record s { next = nx; single = some page; single_first = page }))
      × ((a : ℕ) → nx a ≡ (if leb page a && ltb a (page + n) then some (suc a) else s.next a))
unfolding put_buffer put_singles
put_buffer-links n page s e m =
    let count : s.max_page_no - page ≡ suc n = omega arith in
    let (nx, run, links) =
      put_singles-links n page page (record s { single = some page; single_first = page }) refl in
    (nx, rw (put_buffer, count, put_singles, e) run, links)

-- What the buffer's pages are for the lists: list 11 is the pages from `page` on.
pub put_buffer-IsRep :
    (s0 s : Pmm) (f : Lists) (n page : ℕ)
    → IsFilled s0 s f page
    → s0.single ≡ none
    → s0.max_page_no ≡ page + suc n
    → Returns
        (λ _ t.
          IsRep t (update f 11 (range (suc n) page))
          × (t.page_start ≡ s0.page_start)
          × (t.max_page_no ≡ s0.max_page_no)
          × (t.single_first ≡ page))
        (put_buffer page s)
put_buffer-IsRep s0 s f n page i e m =
    let (nx, run, links) = put_buffer-links n page s (i.kept.3 ∙ e) (i.kept.1 ∙ m) in
    let r =
      IsRep-single s f i.rep nx (some page) (range (suc n) page)
        (Chain-range n page nx (λ a u v. links a ∙ ground arith)
          (links (page + n) ∙ ground (arith, i.fresh (page + n))))
        (Distinct-range (suc n) page) (λ a h. ground (arith, has-range a (suc n) page, i.kept.1))
        (λ a d ne h. IsFilled-IsTaken i a (ground (arith, has-range a (suc n) page)) d)
        (λ a d ne h. links a ∙ ground (arith, i.below d a)) in
    (
      tt,
      record s { next = nx; single = some page; single_first = page },
      run,
      (r, i.kept.0, i.kept.1, refl),
    )
