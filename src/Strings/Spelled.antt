-- ===== src/Strings/Spelled.antt =====
-- Strings in memory, and their length.
use bhos.Common.{
  ℕ, zero, suc, ◌+◌, ◌<◌, ◌≡◌, ap, ◌∙◌, arith, Bool, true, false, some, List, [], ◌∷◌, length,
  get_or, ◌==◌, leb, update, ◌&&◌,
}
use bhos.Bitmap.{Memory}
use bhos.Strings.{strlen_from, strlen}

-- At address `a` stand the characters of the list, none of them '\0', and behind them '\0'.
abbrev pub Spells : Memory → ℕ → List ℕ → Type 0
Spells m a [] = m a ≡ 0
Spells m a (c ∷ cs) = (m a ≡ c) × ((c == 0) ≡ false) × Spells m (a + 1) cs

-- The bytes of a string and its '\0'.
abbrev pub inside : ℕ → ℕ → ℕ → Bool
inside a n o = leb a o && leb o (a + n)

pub Spells-frame :
    (m m' : Memory) (a : ℕ) (cs : List ℕ)
    → Spells m a cs
    → ((o : ℕ) → inside a (length cs) o ≡ true → m' o ≡ m o)
    → Spells m' a cs
Spells-frame m m' a [] s same = same a (ground arith) ∙ s
Spells-frame m m' a (c ∷ cs) s same = (
  same a (ground arith) ∙ s.0,
  s.1,
  Spells-frame m m' (a + 1) cs s.2 (λ o h. same o (ground arith)),
)

-- Memory with a string written to address `a`.
abbrev pub placed : ℕ → List ℕ → Memory → Memory
placed a [] m = update m a 0
placed a (c ∷ cs) m = placed (a + 1) cs (update m a c)

pub placed-outside :
    (a : ℕ) (cs : List ℕ) (m : Memory) (o : ℕ)
    → inside a (length cs) o ≡ false
    → placed a cs m o ≡ m o
placed-outside a [] m o h = ground arith
placed-outside a (c ∷ cs) m o h =
    placed-outside (a + 1) cs (update m a c) o (ground arith) ∙ ground arith

-- No '\0' among the characters.
abbrev pub IsText : List ℕ → Type 0
IsText [] = Unit
IsText (c ∷ cs) = ((c == 0) ≡ false) × IsText cs

pub Spells-IsText : (m : Memory) (a : ℕ) (cs : List ℕ) → Spells m a cs → IsText cs
Spells-IsText m a [] s = tt
Spells-IsText m a (c ∷ cs) s = (s.1, Spells-IsText m (a + 1) cs s.2)

pub Spells-placed : (a : ℕ) (cs : List ℕ) (m : Memory) → IsText cs → Spells (placed a cs m) a cs
Spells-placed a [] m t = ground arith
Spells-placed a (c ∷ cs) m t = (
  placed-outside (a + 1) cs (update m a c) a (ground arith) ∙ ground arith,
  t.0,
  Spells-placed (a + 1) cs (update m a c) t.1,
)

pub Spells-get_or :
    (m : Memory) (a : ℕ) (cs : List ℕ) (i : ℕ)
    → Spells m a cs
    → i < length cs
    → m (a + i) ≡ get_or cs i 0
Spells-get_or m a [] i s h = absurd (omega arith)
Spells-get_or m a (c ∷ cs) zero s h = ap m (omega arith) ∙ s.0
Spells-get_or m a (c ∷ cs) (suc i) s h =
    ap m (omega arith) ∙ Spells-get_or m (a + 1) cs i s.2 (omega arith)

pub Spells-at : (m : Memory) (a b : ℕ) (cs : List ℕ) → a ≡ b → Spells m a cs → Spells m b cs
Spells-at m a b cs e s = rw (← e) s

strlen_from-length :
    (fuel : ℕ) (m : Memory) (a i : ℕ) (cs : List ℕ)
    → Spells m (a + i) cs
    → length cs < fuel
    → strlen_from fuel m a i ≡ some (i + length cs)
unfolding strlen_from
strlen_from-length zero m a i cs s h = absurd (omega arith)
strlen_from-length (suc fuel) m a i [] s h =
    let stop : (m (a + i) == 0) ≡ true = ground arith in
    rw (strlen_from, stop) (ap some (omega arith))
strlen_from-length (suc fuel) m a i (c ∷ cs) s h =
    let go : (m (a + i) == 0) ≡ false = rw s.0 s.1 in
    let rest = Spells-at m (a + i + 1) (a + (i + 1)) cs (omega arith) s.2 in
    rw (strlen_from, go)
      (strlen_from-length fuel m a (i + 1) cs rest (omega arith) ∙ ap some (omega arith))

-- `strlen` counts the characters, with a round for each and one for the '\0'.
pub strlen-length :
    (fuel : ℕ) (m : Memory) (a : ℕ) (cs : List ℕ)
    → Spells m a cs
    → length cs < fuel
    → strlen fuel m a ≡ some (length cs)
strlen-length fuel m a cs s h =
    strlen_from-length fuel m a 0 cs (Spells-at m a (a + 0) cs (omega arith) s) h
    ∙ ap some (omega arith)

pub Spells-end : (m : Memory) (a : ℕ) (cs : List ℕ) → Spells m a cs → m (a + length cs) ≡ 0
Spells-end m a [] s = ap m (omega arith) ∙ s
Spells-end m a (c ∷ cs) s = ap m (omega arith) ∙ Spells-end m (a + 1) cs s.2
