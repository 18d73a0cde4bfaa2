-- ===== src/Pmm/Blocks/Rep.antt =====
-- When a state of the page manager holds given free lists.
use mathlib.Core.Path.{fun_ext, subst}
use bhos.Common.{
  ℕ, ◌≤◌, ◌<◌, ◌≡◌, sym, ap, ◌∙◌, true, false, Option, List, arith, has, Distinct, update, ◌==◌,
  if◌then◌else◌, ◌≢◌,
}
use bhos.Chain.{Links, Chain}
use bhos.Pmm.{Pmm}
use bhos.Pmm.Free.{Lists, IsFree, replace}

-- Where list `c` begins: `MULTI_LINK` for the block classes, `SINGLE_LINK` for list 11.
abbrev pub head_of : Pmm → ℕ → Option ℕ
head_of s c = if c == 11 then s.single else s.heads c

abbrev pub IsRep : Pmm → Lists → Type 0
IsRep s f = IsFree s.max_page_no s.next (head_of s) f

-- What no list operation changes.
abbrev pub Kept : Pmm → Pmm → Type 0
Kept s t =
    (t.page_start ≡ s.page_start)
    × (t.max_page_no ≡ s.max_page_no)
    × (t.single_first ≡ s.single_first)
    × (t.single ≡ s.single)

head_of-heads :
    (s : Pmm) (nx : Links) (c : ℕ) (h : Option ℕ)
    → c ≤ 10
    → head_of (record s { next = nx; heads = update s.heads c h }) ≡ update (head_of s) c h
head_of-heads s nx c h le = fun_ext λ d. ground arith

head_of-single :
    (s : Pmm) (nx : Links) (h : Option ℕ)
    → head_of (record s { next = nx; single = h }) ≡ update (head_of s) 11 h
head_of-single s nx h = fun_ext λ d. ground arith

head_of_self : (s : Pmm) (c : ℕ) → head_of s ≡ update (head_of s) c (head_of s c)
head_of_self s c = fun_ext λ d. ground (arith, ap_head s c d)
  where
    ap_head : (t : Pmm) (a b : ℕ) → (a == b) ≡ true → head_of t b ≡ head_of t a
    ap_head t a b e = ground arith

module _ (s : Pmm) (f : Lists) (r : IsRep s f) (c : ℕ) (ny : Links) (h : Option ℕ) (xs : List ℕ)
    (chain : Chain ny h xs) (distinct : Distinct xs)
    (inside : (a : ℕ) → has a xs ≡ true → a < s.max_page_no)
    (apart : (a d : ℕ) → c ≢ d → has a xs ≡ true → has a (f d) ≡ false)
    (same : (a d : ℕ) → c ≢ d → has a (f d) ≡ true → ny a ≡ s.next a) where
  -- New links and a new head for class `c`.
  pub IsRep-heads :
      c ≤ 10 → IsRep (record s { next = ny; heads = update s.heads c h }) (update f c xs)
  IsRep-heads le =
      subst (λ hd. IsFree s.max_page_no ny hd (update f c xs)) (sym (head_of-heads s ny c h le))
        (replace r c ny h xs chain distinct inside apart same)

  -- New links behind the old head of list `c`.
  pub IsRep-next : h ≡ head_of s c → IsRep (record s { next = ny }) (update f c xs)
  IsRep-next e =
      subst (λ hd. IsFree s.max_page_no ny hd (update f c xs))
        (ap (λ k. update (head_of s) c k) e ∙ sym (head_of_self s c))
        (replace r c ny h xs chain distinct inside apart same)

module _ (s : Pmm) (f : Lists) (r : IsRep s f) (ny : Links) (h : Option ℕ) (xs : List ℕ)
    (chain : Chain ny h xs) (distinct : Distinct xs)
    (inside : (a : ℕ) → has a xs ≡ true → a < s.max_page_no)
    (apart : (a d : ℕ) → 11 ≢ d → has a xs ≡ true → has a (f d) ≡ false)
    (same : (a d : ℕ) → 11 ≢ d → has a (f d) ≡ true → ny a ≡ s.next a) where
  -- New links and a new head for the single-page buffer.
  pub IsRep-single : IsRep (record s { next = ny; single = h }) (update f 11 xs)
  IsRep-single =
      subst (λ hd. IsFree s.max_page_no ny hd (update f 11 xs)) (sym (head_of-single s ny h))
        (replace r 11 ny h xs chain distinct inside apart same)
