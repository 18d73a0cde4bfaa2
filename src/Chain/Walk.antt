-- ===== src/Chain/Walk.antt =====
-- Chains of nodes, and the walk to the last node.
use bhos.Common.{
  ℕ, zero, suc, ◌<◌, ◌≡◌, true, false, Option, none, some, List, [], ◌∷◌, arith, length, has,
  update,
}

-- The `next` field of every node.
abbrev pub Links : Type 0
Links = ℕ → Option ℕ

-- From pointer `p` the links lead through the nodes of the list, in order, to NULL.
abbrev pub Chain : Links → Option ℕ → List ℕ → Type 0
Chain nx p [] = p ≡ none
Chain nx p (x ∷ xs) = (p ≡ some x) × Chain nx (nx x) xs

-- for(; probe->next != NULL; probe = probe->next); with `none` when the fuel runs out.
unfoldable pub last_node : ℕ → Links → ℕ → Option ℕ
last_node zero nx p = none
last_node (suc fuel) nx p = elim (nx p) [ none ↦ some p | some q ↦ last_node fuel nx q ]

-- The last number of a list that begins with `x`.
abbrev pub last_of : ℕ → List ℕ → ℕ
last_of x [] = x
last_of x (y ∷ ys) = last_of y ys

-- A chain survives any change that spares its own nodes.
pub Chain-frame :
    (nx ny : Links) (p : Option ℕ) (xs : List ℕ)
    → Chain nx p xs
    → ((a : ℕ) → has a xs ≡ true → ny a ≡ nx a)
    → Chain ny p xs
Chain-frame nx ny p [] c same = c
Chain-frame nx ny p (x ∷ xs) c same = (
  c.0,
  Chain-frame nx ny (ny x) xs (subst_head (same x (ground arith))) (λ a i. same a (ground arith)),
)
  where
    subst_head : ny x ≡ nx x → Chain nx (ny x) xs
    subst_head e = rw e c.1

pub Chain-update :
    (nx : Links) (p : Option ℕ) (xs : List ℕ) (a : ℕ) (v : Option ℕ)
    → Chain nx p xs
    → has a xs ≡ false
    → Chain (update nx a v) p xs
Chain-update nx p xs a v c out = Chain-frame nx (update nx a v) p xs c (λ b i. ground arith)

pub last_of-mem : (x : ℕ) (xs : List ℕ) → has (last_of x xs) (x ∷ xs) ≡ true
last_of-mem x [] = ground arith
last_of-mem x (y ∷ ys) = ground (arith, last_of-mem y ys)

-- With fuel for every node of the chain the walk ends, at the chain's last node.
pub last_node-last_of :
    (fuel : ℕ) (nx : Links) (x : ℕ) (xs : List ℕ)
    → Chain nx (nx x) xs
    → length xs < fuel
    → last_node fuel nx x ≡ some (last_of x xs)
unfolding last_node
last_node-last_of zero nx x xs c h = absurd (omega arith)
last_node-last_of (suc fuel) nx x [] c h = rw (c, last_node)
last_node-last_of (suc fuel) nx x (y ∷ ys) c h =
    rw (c.0, last_node) (last_node-last_of fuel nx y ys c.1 (omega arith))
