-- ===== src/Pmm/Free.antt =====
-- The free pages as lists: one list of page numbers for each block class, and list 11 for the buffer
-- of single pages.
use bhos.Common.{
  ℕ, ◌<◌, ◌≤◌, ◌≡◌, ◌≢◌, true, false, Option, List, arith, has, Distinct, update, length, ◌==◌,
  Bool-cases, inl, inr, length_of_Distinct,
}
use bhos.Chain.{Links, Chain, Chain-frame}

abbrev pub Lists : Type 0
Lists = ℕ → List ℕ

-- The links and heads hold exactly these lists: every list ends, no page stands twice, in one list
-- or in two, and all pages are below `n`.
pub record IsFree (n : ℕ) (nx : Links) (head : ℕ → Option ℕ) (f : Lists) : Type 0 where
  pub chains : (c : ℕ) → Chain nx (head c) (f c)
  pub distinct : (c : ℕ) → Distinct (f c)
  pub disjoint : (c d a : ℕ) → c ≢ d → has a (f c) ≡ true → has a (f d) ≡ false
  pub inside : (c a : ℕ) → has a (f c) ≡ true → a < n

-- In every list there are at most as many pages as there are.
pub length-IsFree :
    {n : ℕ} {nx : Links} {head : ℕ → Option ℕ} {f : Lists}
    → IsFree n nx head f
    → (c : ℕ) → length (f c) ≤ n
length-IsFree {n} {f} r c = length_of_Distinct n (f c) (r.distinct c) (r.inside c)

-- One list is replaced, and the links of the pages in the others stay: the new lists are held.
module _ {n : ℕ} {nx : Links} {head : ℕ → Option ℕ} {f : Lists} (r : IsFree n nx head f) (c : ℕ)
    (ny : Links) (h : Option ℕ) (xs : List ℕ) (chain : Chain ny h xs) (distinct : Distinct xs)
    (inside : (a : ℕ) → has a xs ≡ true → a < n)
    (apart : (a d : ℕ) → c ≢ d → has a xs ≡ true → has a (f d) ≡ false)
    (same : (a d : ℕ) → c ≢ d → has a (f d) ≡ true → ny a ≡ nx a) where
  chains_at : (d : ℕ) → Chain ny (update head c h d) (update f c xs d)
  chains_at d = elim (Bool-cases (c == d)) [
    | inl e ↦ rw e chain
    | inr ne ↦
        rw ne (Chain-frame nx ny (head d) (f d) (r.chains d) (λ a i. same a d (ground arith) i))
  ]

  Distinct-at : (d : ℕ) → Distinct (update f c xs d)
  Distinct-at d = elim (Bool-cases (c == d)) [
    | inl e ↦ rw e distinct
    | inr ne ↦ rw ne (r.distinct d)
  ]

  disjoint_at :
      (d e a : ℕ) → d ≢ e → has a (update f c xs d) ≡ true → has a (update f c xs e) ≡ false
  disjoint_at d e a ne = elim (Bool-cases (c == d)) [
    | inl p ↦ elim (Bool-cases (c == e)) [
      | inl q ↦ absurd (ne (ground arith))
      | inr q ↦ rw (p, q) (λ i. apart a e (ground arith) i)
    ]
    | inr p ↦ elim (Bool-cases (c == e)) [
      | inl q ↦ rw (p, q) (λ i. ground (arith, apart a d))
      | inr q ↦ rw (p, q) (λ i. r.disjoint d e a ne i)
    ]
  ]

  inside_at : (d a : ℕ) → has a (update f c xs d) ≡ true → a < n
  inside_at d a = elim (Bool-cases (c == d)) [
    | inl e ↦ rw e (inside a)
    | inr ne ↦ rw ne (r.inside d a)
  ]

  pub replace : IsFree n ny (update head c h) (update f c xs)
  replace = record {
    chains = chains_at;
    distinct = Distinct-at;
    disjoint = disjoint_at;
    inside = inside_at;
  }
