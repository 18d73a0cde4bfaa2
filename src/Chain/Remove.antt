-- ===== src/Chain/Remove.antt =====
-- Nodes taken out of a chain: the last one, or the one that a search finds.
use bhos.Common.{
  ℕ, zero, suc, ◌<◌, ◌≡◌, refl, true, false, Option, none, some, List, [], ◌∷◌, arith, length, has,
  Distinct, erase, update, ◌==◌, if◌then◌else◌, Bool-cases, eq→==, inl, inr, sym,
}
use bhos.Chain.Walk.{Links, Chain, last_of, last_of-mem, Chain-update}

-- for(; probe->next->next != NULL; probe = probe->next); `none` stands for a NULL dereference or
-- for the end of the fuel.
unfoldable pub before_last : ℕ → Links → ℕ → Option ℕ
before_last zero nx p = none
before_last (suc fuel) nx p = elim (nx p) [
  | none ↦ none
  | some q ↦ elim (nx q) [ none ↦ some p | some _ ↦ before_last fuel nx q ]
]

-- The node before the last one of the list `x ∷ y ∷ ys`.
abbrev pub penultimate : ℕ → ℕ → List ℕ → ℕ
penultimate x y [] = x
penultimate x y (z ∷ zs) = penultimate y z zs

-- The list `x ∷ xs` without its last number.
abbrev pub drop_last : ℕ → List ℕ → List ℕ
drop_last x [] = []
drop_last x (y ∷ ys) = x ∷ drop_last y ys

pub before_last-penultimate :
    (fuel : ℕ) (nx : Links) (x y : ℕ) (ys : List ℕ)
    → Chain nx (nx x) (y ∷ ys)
    → length ys < fuel
    → before_last fuel nx x ≡ some (penultimate x y ys)
unfolding before_last
before_last-penultimate zero nx x y ys c h = absurd (omega arith)
before_last-penultimate (suc fuel) nx x y [] c h = ground arith
before_last-penultimate (suc fuel) nx x y (z ∷ zs) c h =
    ground (arith, before_last-penultimate fuel nx y z zs c.1)

pub next-penultimate :
    (nx : Links) (x y : ℕ) (ys : List ℕ)
    → Chain nx (nx x) (y ∷ ys)
    → nx (penultimate x y ys) ≡ some (last_of y ys)
next-penultimate nx x y [] c = c.0
next-penultimate nx x y (z ∷ zs) c = next-penultimate nx y z zs c.1

pub penultimate-mem : (x y : ℕ) (ys : List ℕ) → has (penultimate x y ys) (x ∷ drop_last y ys) ≡ true
penultimate-mem x y [] = ground arith
penultimate-mem x y (z ∷ zs) = ground (arith, penultimate-mem y z zs)

pub has-drop_last :
    (a x : ℕ) (xs : List ℕ)
    → Distinct (x ∷ xs)
    → has a (drop_last x xs) ≡ (if a == last_of x xs then false else has a (x ∷ xs))
has-drop_last a x [] d = ground arith
has-drop_last a x (y ∷ ys) d = ground (arith, has-drop_last a y ys d.1, last_of-mem y ys)

pub Distinct-drop_last : (x : ℕ) (xs : List ℕ) → Distinct (x ∷ xs) → Distinct (drop_last x xs)
Distinct-drop_last x [] d = tt
Distinct-drop_last x (y ∷ ys) d =
    (ground (arith, has-drop_last x y ys d.1), Distinct-drop_last y ys d.1)

-- `probe->next = NULL` at the node before the last one drops the last one.
pub Chain-drop_last :
    (nx : Links) (x y : ℕ) (ys : List ℕ)
    → Chain nx (nx x) (y ∷ ys)
    → Distinct (x ∷ y ∷ ys)
    → Chain
        (update nx (penultimate x y ys) none)
        (update nx (penultimate x y ys) none x)
        (drop_last y ys)
Chain-drop_last nx x y [] c d = ground arith
Chain-drop_last nx x y (z ∷ zs) c d = (
  ground (arith, penultimate-mem y z zs, has-drop_last x y (z ∷ zs) d.1),
  Chain-drop_last nx y z zs c.1 d.1,
)

-- The walk that looks for `target` behind `probe`: either the node before it, or the last node.
pub data Found : Type 0 where
  before : ℕ → Found
  ended : ℕ → Found

-- for(; probe->next != NULL; probe = probe->next) if(probe->next is target) ...
unfoldable pub find_before : ℕ → Links → ℕ → ℕ → Option Found
find_before zero nx p target = none
find_before (suc fuel) nx p target = elim (nx p) [
  | none ↦ some (ended p)
  | some q ↦
      let rest = find_before fuel nx q target in if q == target then some (before p) else rest
]

-- The node before `target` in the list `x ∷ xs`.
abbrev pub prev_of : ℕ → List ℕ → ℕ → ℕ
prev_of x [] target = x
prev_of x (y ∷ ys) target = if y == target then x else prev_of y ys target

pub find_before_lem :
    (fuel : ℕ) (nx : Links) (x : ℕ) (xs : List ℕ) (target : ℕ)
    → Chain nx (nx x) xs
    → length xs < fuel
    → find_before fuel nx x target
      ≡ (if has target xs then some (before (prev_of x xs target)) else some (ended (last_of x xs)))
unfolding find_before
find_before_lem zero nx x xs target c h = absurd (omega arith)
find_before_lem (suc fuel) nx x [] target c h = ground arith
find_before_lem (suc fuel) nx x (y ∷ ys) target c h =
    ground (arith, find_before_lem fuel nx y ys target c.1)

pub prev_of-mem : (x : ℕ) (xs : List ℕ) (target : ℕ) → has (prev_of x xs target) (x ∷ xs) ≡ true
prev_of-mem x [] target = ground arith
prev_of-mem x (y ∷ ys) target = ground (arith, prev_of-mem y ys target)

pub next-prev_of :
    (nx : Links) (x : ℕ) (xs : List ℕ) (target : ℕ)
    → Chain nx (nx x) xs
    → has target xs ≡ true
    → nx (prev_of x xs target) ≡ some target
next-prev_of nx x [] target c h = absurd (ground arith)
next-prev_of nx x (y ∷ ys) target c h = ground (arith, next-prev_of nx y ys target c.1)

erase_miss : (a x : ℕ) (xs : List ℕ) → (x == a) ≡ false → erase a (x ∷ xs) ≡ x ∷ erase a xs
erase_miss a x xs h = ground arith

Chain-erase_head :
    (nx : Links) (x y : ℕ) (ys : List ℕ) (target : ℕ)
    → Chain nx (nx x) (y ∷ ys)
    → Distinct (x ∷ y ∷ ys)
    → (y == target) ≡ true
    → Chain
        (update nx (prev_of x (y ∷ ys) target) (nx target))
        (update nx (prev_of x (y ∷ ys) target) (nx target) x)
        (erase target (y ∷ ys))
Chain-erase_head nx x y ys target c d hit =
    let e : y ≡ target = ground arith in
    rw (hit, eq→== target y (sym e), eq→== x x refl)
      (rw (← e) (Chain-update nx (nx y) ys x (nx y) c.1 (ground arith)))

-- `probe->next = probe->next->next` at the node before `target` unlinks that node.
pub Chain-erase :
    (nx : Links) (x : ℕ) (xs : List ℕ) (target : ℕ)
    → Chain nx (nx x) xs
    → Distinct (x ∷ xs)
    → has target xs ≡ true
    → Chain
        (update nx (prev_of x xs target) (nx target))
        (update nx (prev_of x xs target) (nx target) x)
        (erase target xs)
Chain-erase nx x [] target c d h = absurd (ground arith)
Chain-erase nx x (y ∷ ys) target c d h = elim (Bool-cases (y == target)) [
  | inl hit ↦ Chain-erase_head nx x y ys target c d hit
  | inr miss ↦
      let behind : has target ys ≡ true = ground arith in
      rw (miss, erase_miss target y ys miss)
        (ground (arith, prev_of-mem y ys target), Chain-erase nx y ys target c.1 d.1 behind)
]
