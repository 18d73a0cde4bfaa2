-- ===== src/Chain/Append.antt =====
-- A node linked behind the last one: `last->next = node`.
use bhos.Common.{ℕ, ◌≡◌, false, some, none, List, [], ◌∷◌, ◌++◌, arith, has, Distinct, update}
use bhos.Chain.Walk.{Links, Chain, last_of, last_of-mem}

-- The chain behind `x`, after the node `a` is linked to its end.
Chain-append_tail :
    (nx : Links) (x a : ℕ) (xs : List ℕ)
    → Chain nx (nx x) xs
    → Distinct (x ∷ xs)
    → has a (x ∷ xs) ≡ false
    → nx a ≡ none
    → Chain
        (update nx (last_of x xs) (some a))
        (update nx (last_of x xs) (some a) x)
        (xs ++ (a ∷ []))
Chain-append_tail nx x a [] c d out e = (ground arith, ground arith)
Chain-append_tail nx x a (y ∷ ys) c d out e =
    (ground (arith, last_of-mem y ys), Chain-append_tail nx y a ys c.1 d.1 (ground arith) e)

-- Linking `a` behind the last node of a chain appends it to the list that the chain spells.
pub Chain-append :
    (nx : Links) (x a : ℕ) (xs : List ℕ)
    → Chain nx (some x) (x ∷ xs)
    → Distinct (x ∷ xs)
    → has a (x ∷ xs) ≡ false
    → nx a ≡ none
    → Chain (update nx (last_of x xs) (some a)) (some x) (x ∷ xs ++ (a ∷ []))
Chain-append nx x a xs c d out e = (c.0, Chain-append_tail nx x a xs c.1 d out e)
