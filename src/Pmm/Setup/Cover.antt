-- ===== src/Pmm/Setup/Cover.antt =====
-- The initial blocks cover all pages.
use bhos.Common.{
  ℕ, zero, suc, ◌+◌, ◌-◌, ◌*◌, ◌^◌, ◌<◌, ◌≤◌, ◌≡◌, refl, ◌∙◌, arith, true, Bool-cases, ◌⊎◌, inl,
  inr, List, [], ◌∷◌, ◌++◌, has, has-append, update, ltb,
}
use bhos.Pmm.Free.{Lists}
use bhos.Pmm.Setup.{first_blocks}
use bhos.Pmm.Setup.Fill.{lists_with, blocks_1024, count_1024}
use bhos.Pmm.Setup.Single.{has-range}
use bhos.Pmm.Setup.Init.{initial_blocks, initial, first_single}

-- A block of the lists that holds page `a`.
abbrev pub IsCovered : Lists → ℕ → Type 0
IsCovered f a = (c : ℕ) × (p : ℕ) × (has p (f c) ≡ true) × (c ≤ 10) × (p ≤ a) × (a < p + 2 ^ c)

has-lists_with :
    (bs : List (ℕ × ℕ)) (f : Lists) (c p : ℕ)
    → has p (f c) ≡ true
    → has p (lists_with f bs c) ≡ true
has-lists_with [] f c p h = h
has-lists_with (b ∷ bs) f c p h =
    has-lists_with bs (update f b.1 (f b.1 ++ (b.0 ∷ []))) c p
      (ground (arith, has-append p (f b.1) (b.0 ∷ [])))

IsCovered-lists_with :
    (bs : List (ℕ × ℕ)) (f : Lists) (a : ℕ) → IsCovered f a → IsCovered (lists_with f bs) a
IsCovered-lists_with bs f a (c, p, h, le, lo, hi) = (c, p, has-lists_with bs f c p h, le, lo, hi)

-- Blocks that follow one another without a gap, from `n` to `m`.
abbrev AreTiled : ℕ → ℕ → List (ℕ × ℕ) → Type 0
AreTiled n m [] = m ≤ n
AreTiled n m (b ∷ bs) = (b.0 ≤ n) × (b.1 ≤ 10) × AreTiled (b.0 + 2 ^ b.1) m bs

tiled-IsCovered :
    (bs : List (ℕ × ℕ)) (f : Lists) (n m a : ℕ)
    → AreTiled n m bs
    → n ≤ a
    → a < m
    → IsCovered (lists_with f bs) a
tiled-IsCovered [] f n m a t h lt = absurd (omega arith)
tiled-IsCovered (b ∷ bs) f n m a t h lt = elim (Bool-cases (ltb a (b.0 + 2 ^ b.1))) [
  | inl e ↦ IsCovered-lists_with bs (update f b.1 (f b.1 ++ (b.0 ∷ []))) a (
    b.1,
    b.0,
    ground (arith, has-append b.0 (f b.1) (b.0 ∷ [])),
    t.1,
    omega (arith, t.0),
    ground arith,
  )
  | inr e ↦
      tiled-IsCovered bs (update f b.1 (f b.1 ++ (b.0 ∷ []))) (b.0 + 2 ^ b.1) m a t.2 (ground arith)
        lt
]

first_blocks-AreTiled : AreTiled 0 2048 first_blocks
first_blocks-AreTiled = ground arith

blocks_1024-AreTiled : (k page m : ℕ) → m ≡ page + 1024 * k → AreTiled page m (blocks_1024 k page)
blocks_1024-AreTiled zero page m e = omega arith
blocks_1024-AreTiled (suc k) page m e =
    (omega arith, omega arith, blocks_1024-AreTiled k (page + 1024) m (omega arith))

IsCovered-blocks : (max a : ℕ) → a < first_single max → IsCovered (initial_blocks max) a
unfolding initial_blocks
IsCovered-blocks max a h = elim (Bool-cases (ltb a 2048)) [
  | inl e ↦
      IsCovered-lists_with (blocks_1024 (count_1024 max 2048) 2048)
        (lists_with (λ _. []) first_blocks) a
        (tiled-IsCovered first_blocks (λ _. []) 0 2048 a first_blocks-AreTiled (omega arith)
          (ground arith))
  | inr e ↦
      tiled-IsCovered (blocks_1024 (count_1024 max 2048) 2048) (lists_with (λ _. []) first_blocks)
        2048 (first_single max) a
        (blocks_1024-AreTiled (count_1024 max 2048) 2048 (first_single max) refl) (ground arith) h
]

-- Every page below `max` lies in a free block or stands in the buffer.
pub initial-IsCovered :
    (max a : ℕ) → 2048 < max → a < max → IsCovered (initial max) a ⊎ (has a (initial max 11) ≡ true)
initial-IsCovered max a lo h = elim (Bool-cases (ltb a (first_single max))) [
  | inr e ↦ inr (has-range a (max - first_single max) (first_single max) ∙ ground arith)
  | inl e ↦
      let (c, p, mem, le, low, high) = IsCovered-blocks max a (ground arith) in
      inl (c, p, ground (arith, mem), le, low, high)
]
