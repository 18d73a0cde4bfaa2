-- ===== src/Pmm/Setup/Fill.antt =====
-- The blocks that `pmm_page_init` files.
use bhos.Common.{
  ℕ, zero, suc, ◌+◌, ◌-◌, ◌*◌, ◌/◌, ◌^◌, ◌<◌, ◌≤◌, ◌≡◌, refl, ap, ◌∙◌, arith, true, false,
  Bool-cases, inl, inr, none, List, [], ◌∷◌, ◌++◌, has, has-append, update, ltb, u32, sub32,
  Returns, ok, ◌>>=◌, ◌>>◌,
}
use bhos.Pmm.{Pmm, append_block}
use bhos.Pmm.Free.{Lists}
use bhos.Pmm.Blocks.{IsRep, Kept}
use bhos.Pmm.Blocks.Append.{IsTaken, append_block-Appended}
use bhos.Pmm.Setup.{append_blocks, fill_1024}

-- A step of the set-up that began in `s0`: the state holds the lists, whose pages are below `n`, and the
-- pages from `n` on link nowhere.
pub record IsFilled (s0 s : Pmm) (f : Lists) (n : ℕ) : Type 0 where
  pub rep : IsRep s f
  pub kept : Kept s0 s
  pub below : (d a : ℕ) → has a (f d) ≡ true → a < n
  pub fresh : (a : ℕ) → n ≤ a → a < s0.max_page_no → s.next a ≡ none

pub IsFilled-IsTaken :
    {s0 s : Pmm} {f : Lists} {n : ℕ} → IsFilled s0 s f n → (p : ℕ) → n ≤ p → IsTaken f p
IsFilled-IsTaken {f} i p h d = elim (Bool-cases (has p (f d))) [
  | inl e ↦ absurd (omega (arith, i.below d p e))
  | inr e ↦ e
]

append_block-IsFilled :
    (s0 s : Pmm) (f : Lists) (n p c : ℕ)
    → IsFilled s0 s f n
    → n ≤ p
    → p < s0.max_page_no
    → c ≤ 10
    → Returns (λ _ t. IsFilled s0 t (update f c (f c ++ (p ∷ []))) (suc p)) (append_block p c s)
append_block-IsFilled s0 s f n p c i h lt le =
    let k = i.kept in
    let (_, t, run, post) =
      append_block-Appended s f i.rep c p le (omega (arith, k.1)) (IsFilled-IsTaken i p h) in
    let j = post.1 in
    (
      tt,
      t,
      run,
      record {
        rep = post.0;
        kept = (j.0 ∙ k.0, j.1 ∙ k.1, j.2 ∙ k.2, j.3 ∙ k.3);
        below = λ d a m. ground (arith, has-append a (f c) (p ∷ []), i.below d a, i.below c a);
        fresh = λ a u v.
            post.2 a (IsFilled-IsTaken i a (omega arith)) (ground arith)
            ∙ i.fresh a (omega arith) v;
      },
    )

-- The lists after the blocks have been appended in turn.
abbrev pub lists_with : Lists → List (ℕ × ℕ) → Lists
lists_with f [] = f
lists_with f (b ∷ bs) = lists_with (update f b.1 (f b.1 ++ (b.0 ∷ []))) bs

-- Pages in ascending order, from `n` on and below `max`, with their block classes.
abbrev pub AreAscending : ℕ → ℕ → List (ℕ × ℕ) → Type 0
AreAscending max n [] = Unit
AreAscending max n (b ∷ bs) = ((n ≤ b.0) × (b.0 < max) × (b.1 ≤ 10)) × AreAscending max (suc b.0) bs

-- The first number that no page of the blocks reaches.
abbrev pub behind : ℕ → List (ℕ × ℕ) → ℕ
behind n [] = n
behind n (b ∷ bs) = behind (suc b.0) bs

pub append_blocks-IsFilled :
    (bs : List (ℕ × ℕ)) (s0 s : Pmm) (f : Lists) (n : ℕ)
    → IsFilled s0 s f n
    → AreAscending s0.max_page_no n bs
    → Returns (λ _ t. IsFilled s0 t (lists_with f bs) (behind n bs)) (append_blocks bs s)
unfolding append_blocks
append_blocks-IsFilled [] s0 s f n i up = (tt, s, refl, i)
append_blocks-IsFilled (b ∷ bs) s0 s f n i up =
    let (_, t, run, post) = append_block-IsFilled s0 s f n b.0 b.1 i up.0.0 up.0.1 up.0.2 in
    let (_, u, go, rest) =
      append_blocks-IsFilled bs s0 t (update f b.1 (f b.1 ++ (b.0 ∷ []))) (suc b.0) post up.1 in
    (tt, u, rw (◌>>◌, ◌>>=◌, run) go, rest)

-- `k` blocks of 1024 pages from a page on.
abbrev pub blocks_1024 : ℕ → ℕ → List (ℕ × ℕ)
blocks_1024 zero page = []
blocks_1024 (suc k) page = (page, 10) ∷ blocks_1024 k (page + 1024)

-- The number of blocks of 1024 pages from a page on that leave at most 1024 pages.
abbrev pub count_1024 : ℕ → ℕ → ℕ
count_1024 max page = (max - 1024 - page + 1023) / 1024

pub IsFilled-later :
    {s0 s : Pmm} {f : Lists} {n : ℕ} → IsFilled s0 s f n → (m : ℕ) → n ≤ m → IsFilled s0 s f m
IsFilled-later i m h = record {
  rep = i.rep;
  kept = i.kept;
  below = λ d a e. omega (arith, i.below d a e);
  fresh = λ a u v. i.fresh a (omega arith) v;
}

fill_1024-step :
    (fuel page : ℕ) (s t : Pmm)
    → ltb page (sub32 s.max_page_no 1024) ≡ true
    → append_block page 10 s ≡ ok (tt, t)
    → page + 1024 < 2 ^ 32
    → fill_1024 (suc fuel) page s ≡ fill_1024 fuel (page + 1024) t
unfolding fill_1024
fill_1024-step fuel page s t go run small =
    let step : u32 (page + 1024) ≡ page + 1024 = omega arith in
    rw (fill_1024, go, ◌>>◌, ◌>>=◌, run) (ap (λ (q : ℕ). fill_1024 fuel q t) step)

pub fill_1024-IsFilled :
    (k fuel page : ℕ) (s0 s : Pmm) (f : Lists)
    → IsFilled s0 s f page
    → 1024 ≤ s0.max_page_no
    → s0.max_page_no < 2 ^ 31
    → count_1024 s0.max_page_no page ≡ k
    → k < fuel
    → Returns
        (λ q t. (q ≡ page + 1024 * k) × IsFilled s0 t (lists_with f (blocks_1024 k page)) q)
        (fill_1024 fuel page s)
unfolding fill_1024
fill_1024-IsFilled k zero page s0 s f i lo hi e h = absurd (omega arith)
fill_1024-IsFilled zero (suc fuel) page s0 s f i lo hi e h =
    let stop : ltb page (sub32 s.max_page_no 1024) ≡ false = ground (arith, i.kept.1) in
    (page, s, rw (fill_1024, stop) refl, (omega arith, i))
fill_1024-IsFilled (suc k) (suc fuel) page s0 s f i lo hi e h =
    let go : ltb page (sub32 s.max_page_no 1024) ≡ true = ground (arith, i.kept.1) in
    let (_, t, run, post) =
      append_block-IsFilled s0 s f page page 10 i (omega arith) (omega arith) (omega arith) in
    let (q, u, rest, filled) =
      fill_1024-IsFilled k fuel (page + 1024) s0 t (update f 10 (f 10 ++ (page ∷ [])))
        (IsFilled-later post (page + 1024) (omega arith)) lo hi (omega arith) (omega arith) in
    (
      q,
      u,
      fill_1024-step fuel page s t go run (omega arith) ∙ rest,
      (filled.0 ∙ omega arith, filled.1),
    )
