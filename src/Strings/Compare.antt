-- ===== src/Strings/Compare.antt =====
-- `strcmp` on strings of one length.
use bhos.Common.{
  ℕ, zero, suc, ◌+◌, ◌<◌, ◌≡◌, refl, arith, Bool, true, false, Bool-cases, inl, inr, some, List, [],
  ◌∷◌, length, ◌==◌, if◌then◌else◌, ◌&&◌, ◌||◌,
}
use bhos.Bitmap.{Memory}
use bhos.Strings.{strcmp, char_gt}
use bhos.Strings.Spelled.{Spells}

-- Some character of the first string is greater than the one at its index in the second.
abbrev pub some_gt : List ℕ → List ℕ → Bool
some_gt [] ds = false
some_gt (c ∷ cs) [] = false
some_gt (c ∷ cs) (d ∷ ds) = char_gt c d || some_gt cs ds

-- `strcmp` of two strings of one length is 1 if some character of the first is greater, as a signed byte,
-- than its counterpart in the second, wherever it stands, and 0 otherwise: never -1. The rounds are enough.
pub strcmp-some_gt :
    (fuel a b : ℕ) (m : Memory) (cs ds : List ℕ)
    → Spells m a cs
    → Spells m b ds
    → length cs ≡ length ds
    → length cs < fuel
    → strcmp fuel a b m ≡ some (if some_gt cs ds then 1 else 0)
unfolding strcmp
strcmp-some_gt zero a b m cs ds s t e f = absurd (omega arith)
strcmp-some_gt (suc fuel) a b m [] [] s t e f =
    let stop : (m a == 0 && m b == 0) ≡ true = ground arith in rw (strcmp, stop) refl
strcmp-some_gt (suc fuel) a b m [] (d ∷ ds) s t e f = absurd (omega arith)
strcmp-some_gt (suc fuel) a b m (c ∷ cs) [] s t e f = absurd (omega arith)
strcmp-some_gt (suc fuel) a b m (c ∷ cs) (d ∷ ds) s t e f =
    let go : (m a == 0 && m b == 0) ≡ false = rw s.0 (rw s.1 refl) in
    let rest = strcmp-some_gt fuel (a + 1) (b + 1) m cs ds s.2 t.2 (omega arith) (omega arith) in
    elim (Bool-cases (char_gt c d)) [
      | inl g ↦ let at : char_gt (m a) (m b) ≡ true = rw (s.0, t.0) g in rw (strcmp, go, at, g) refl
      | inr g ↦
          let at : char_gt (m a) (m b) ≡ false = rw (s.0, t.0) g in rw (strcmp, go, at, at, g) rest
    ]
