-- ===== src/Strings/Copy.antt =====
-- Copies of strings and bytes.
use bhos.Common.{
  ℕ, zero, suc, ◌+◌, ◌-◌, ◌<◌, ◌≡◌, refl, ◌∙◌, arith, Bool, true, false, Bool-cases, inl, inr, some,
  List, [], ◌∷◌, ◌++◌, length, ◌==◌, leb, ltb, if◌then◌else◌, update, ◌&&◌, ◌||◌,
}
use bhos.Bitmap.{Memory}
use bhos.Strings.{strcpy, strcat, memcpy}
use bhos.Strings.Spelled.{
  Spells, Spells-at, Spells-frame, Spells-placed, Spells-IsText, placed, placed-outside, inside,
  strlen-length, IsText,
}

-- A string of `n` characters at `src` and a copy at `dest` have no byte in common, or the copy stands
-- in front.
abbrev pub apart : ℕ → ℕ → ℕ → Bool
apart dest src n = ltb dest src || ltb (src + n) dest

-- `strcpy` of a string writes it to the destination, when that begins in front of the string or behind
-- its '\0'.
pub strcpy-placed :
    (fuel dest src : ℕ) (m : Memory) (cs : List ℕ)
    → Spells m src cs
    → apart dest src (length cs) ≡ true
    → length cs < fuel
    → strcpy fuel dest src m ≡ some (placed dest cs m)
unfolding strcpy
strcpy-placed zero dest src m cs s h f = absurd (omega arith)
strcpy-placed (suc fuel) dest src m [] s h f =
    let stop : (m src == 0) ≡ true = ground arith in rw (strcpy, stop) refl
strcpy-placed (suc fuel) dest src m (c ∷ cs) s h f =
    let go : (m src == 0) ≡ false = rw s.0 s.1 in
    let rest = Spells-frame m (update m dest c) (src + 1) cs s.2 (λ o i. ground arith) in
    rw (strcpy, go, s.0)
      (strcpy-placed fuel (dest + 1) (src + 1) (update m dest c) cs rest (ground arith)
        (omega arith))

-- After `strcpy` of a string to a place apart from it the copy spells the string, and no byte but those
-- of the copy changes. The rounds are enough.
pub strcpy-Spells :
    (fuel dest src : ℕ) (m : Memory) (cs : List ℕ)
    → Spells m src cs
    → apart dest src (length cs) ≡ true
    → length cs < fuel
    → (m' : Memory) × (strcpy fuel dest src m ≡ some m')
      × Spells m' dest cs
      × ((o : ℕ) → (if inside dest (length cs) o then m o else m' o) ≡ m o)
strcpy-Spells fuel dest src m cs s h f = (
  placed dest cs m,
  strcpy-placed fuel dest src m cs s h f,
  Spells-placed dest cs m (Spells-IsText m src cs s),
  (λ o. elim (Bool-cases (inside dest (length cs) o)) [
    | inl e ↦ rw e refl
    | inr e ↦ rw e (placed-outside dest cs m o e)
  ]),
)

pub Spells-append :
    (m : Memory) (a p : ℕ) (cs ds : List ℕ)
    → p ≡ a + length cs
    → Spells m a cs
    → IsText ds
    → Spells (placed p ds m) a (cs ++ ds)
Spells-append m a p [] ds e s t =
    Spells-at (placed p ds m) p a ds (omega (arith, e)) (Spells-placed p ds m t)
Spells-append m a p (c ∷ cs) ds e s t = (
  placed-outside p ds m a (ground arith) ∙ s.0,
  s.1,
  Spells-append m (a + 1) p cs ds (omega (arith, e)) s.2 t,
)

-- `strcat` of two strings that stand apart, also with the second one added to the first, spells the first
-- one followed by the second. The rounds are enough.
pub strcat-append :
    (fuel dest src : ℕ) (m : Memory) (cs ds : List ℕ)
    → Spells m dest cs
    → Spells m src ds
    → apart (dest + length cs) src (length ds) ≡ true
    → length cs < fuel
    → length ds < fuel
    → (m' : Memory) × (strcat fuel dest src m ≡ some m')
      × Spells m' dest (cs ++ ds)
      × ((o : ℕ) → (if inside (dest + length cs) (length ds) o then m o else m' o) ≡ m o)
unfolding strcat
strcat-append fuel dest src m cs ds s t h f g =
    let spot : ℕ = dest + length cs in
    (
      placed spot ds m,
      rw (strcat, strlen-length fuel m dest cs s f) (strcpy-placed fuel spot src m ds t h g),
      Spells-append m dest spot cs ds refl s (Spells-IsText m src ds t),
      (λ o. elim (Bool-cases (inside spot (length ds) o)) [
        | inl e ↦ rw e refl
        | inr e ↦ rw e (placed-outside spot ds m o e)
      ]),
    )

-- `memcpy` of `len` bytes, to a place that begins in front of them or behind them.
pub memcpy-bytes :
    (dest src len : ℕ) (m : Memory) (o : ℕ)
    → (leb dest src || leb (src + len) dest) ≡ true
    → memcpy dest src len m o
      ≡ (if leb dest o && ltb o (dest + len) then m (src + (o - dest)) else m o)
unfolding memcpy
memcpy-bytes dest src zero m o h = ground arith
memcpy-bytes dest src (suc len) m o h =
    let rest = memcpy-bytes (dest + 1) (src + 1) len (update m dest (m src)) o (ground arith) in
    rest ∙ elim (Bool-cases (dest == o)) [
      | inl e ↦ let at : src + (o - dest) ≡ src = ground arith in rw at (ground arith)
      | inr e ↦ elim (Bool-cases (leb dest o)) [
        | inl f ↦
            let at : src + 1 + (o - (dest + 1)) ≡ src + (o - dest) = ground arith in
            rw at (ground arith)
        | inr f ↦ ground arith
      ]
    ]
