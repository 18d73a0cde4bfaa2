-- ===== src/Strings/Reverse.antt =====
-- `strrevers` reverses a string where it stands.
use mathlib.Core.List.{reverse, reverse-cons}
use bhos.Common.{
  ℕ, zero, suc, ◌+◌, ◌-◌, ◌*◌, ◌<◌, ◌≤◌, ◌≡◌, refl, sym, ap, ◌∙◌, arith, true, false, Bool-cases,
  inl, inr, some, List, [], ◌∷◌, ◌++◌, length, length-append, get_or, ◌==◌, leb, ltb, if◌then◌else◌,
  update, ◌&&◌,
}
use bhos.Bitmap.{Memory}
use bhos.Strings.{swap_loop, strrevers}
use bhos.Strings.Spelled.{
  Spells, Spells-get_or, Spells-end, Spells-IsText, inside, strlen-length, IsText,
}

get_or-append :
    (cs ds : List ℕ) (i : ℕ)
    → get_or (cs ++ ds) i 0
      ≡ (if ltb i (length cs) then get_or cs i 0 else get_or ds (i - length cs) 0)
get_or-append [] ds i = let at : i - 0 ≡ i = omega arith in rw at (ground arith)
get_or-append (c ∷ cs) ds zero = ground arith
get_or-append (c ∷ cs) ds (suc i) = get_or-append cs ds i ∙ elim (Bool-cases (ltb i (length cs))) [
  | inl e ↦ ground arith
  | inr e ↦ let at : i - length cs ≡ suc i - suc (length cs) = omega arith in rw at (ground arith)
]

pub length-reverse : (cs : List ℕ) → length (reverse cs) ≡ length cs
length-reverse [] = refl
length-reverse (c ∷ cs) =
    rw (reverse-cons c cs) (length-append (reverse cs) (c ∷ []) ∙ omega (arith, length-reverse cs))

split_last :
    (c : ℕ) (cs : List ℕ) (i : ℕ)
    → i < suc (length cs)
    → (i < length cs → get_or (reverse cs) i 0 ≡ get_or cs (length cs - 1 - i) 0)
    → (if ltb i (length cs) then get_or (reverse cs) i 0 else get_or (c ∷ []) (i - length cs) 0)
      ≡ get_or (c ∷ cs) (suc (length cs) - 1 - i) 0
split_last c cs i h old = elim (Bool-cases (ltb i (length cs))) [
  | inl e ↦
      let at : suc (length cs) - 1 - i ≡ suc (length cs - 1 - i) = ground arith in
      rw (e, at) (old (ground arith))
  | inr e ↦
      let at : suc (length cs) - 1 - i ≡ 0 = ground arith in
      let last : i - length cs ≡ 0 = ground arith in rw (e, at, last) refl
]

get_or-reverse :
    (cs : List ℕ) (i : ℕ)
    → i < length cs
    → get_or (reverse cs) i 0 ≡ get_or cs (length cs - 1 - i) 0
get_or-reverse [] i h = absurd (omega arith)
get_or-reverse (c ∷ cs) i h = rw (reverse-cons c cs) (
    get_or-append (reverse cs) (c ∷ []) i
    ∙ rw (length-reverse cs) (split_last c cs i h (get_or-reverse cs i)))

IsText-append : (cs ds : List ℕ) → IsText cs → IsText ds → IsText (cs ++ ds)
IsText-append [] ds t u = u
IsText-append (c ∷ cs) ds t u = (t.0, IsText-append cs ds t.1 u)

pub IsText-reverse : (cs : List ℕ) → IsText cs → IsText (reverse cs)
IsText-reverse [] t = tt
IsText-reverse (c ∷ cs) t =
    rw (reverse-cons c cs) (IsText-append (reverse cs) (c ∷ []) (IsText-reverse cs t.1) (t.0, tt))

Spells-bytes :
    (m : Memory) (a : ℕ) (cs : List ℕ)
    → IsText cs
    → ((i : ℕ) → i < length cs → m (a + i) ≡ get_or cs i 0)
    → m (a + length cs) ≡ 0
    → Spells m a cs
Spells-bytes m a [] t h e = ap m (omega arith) ∙ e
Spells-bytes m a (c ∷ cs) t h e = (
  ap m (omega arith) ∙ h 0 (omega arith),
  t.0,
  Spells-bytes m (a + 1) cs t.1 (λ i lt. ap m (omega arith) ∙ h (suc i) (omega arith))
      (ap m (omega arith) ∙ e),
)

abbrev mirrored : ℕ → ℕ → ℕ → Memory → Memory
mirrored a h t m o = if leb (a + h) o && leb o (a + t) then m (2 * a + h + t - o) else m o

mirror-stop :
    (a h t : ℕ) (m : Memory) (o : ℕ) → h ≤ t + 1 → ltb h t ≡ false → m o ≡ mirrored a h t m o
mirror-stop a h t m o k e = elim (Bool-cases (leb (a + h) o && leb o (a + t))) [
  | inl f ↦ let at : 2 * a + h + t - o ≡ o = ground arith in rw (f, at) refl
  | inr f ↦ rw f refl
]

-- Two bytes change places and the rest between them is turned round.
mirror-step :
    (a h t : ℕ) (m : Memory) (o : ℕ)
    → ltb h t ≡ true
    → mirrored a (h + 1) (t - 1) (update (update m (a + t) (m (a + h))) (a + h) (m (a + t))) o
      ≡ mirrored a h t m o
mirror-step a h t m o e = elim (Bool-cases (a + h == o)) [
  | inl f ↦ let at : 2 * a + h + t - o ≡ a + t = ground arith in rw at (ground arith)
  | inr f ↦ elim (Bool-cases (a + t == o)) [
    | inl g ↦ let at : 2 * a + h + t - o ≡ a + h = ground arith in rw at (ground arith)
    | inr g ↦
        let at : 2 * a + (h + 1) + (t - 1) - o ≡ 2 * a + h + t - o = ground arith in
        rw at (ground arith)
  ]
]

-- The loop turns the bytes from index `h` to index `t` round.
swap_loop-mirrored :
    (fuel a h t : ℕ) (m : Memory)
    → h ≤ t + 1
    → t + 1 < h + 2 * fuel
    → (m' : Memory) × (swap_loop fuel a h t m ≡ some m') × ((o : ℕ) → m' o ≡ mirrored a h t m o)
unfolding swap_loop
swap_loop-mirrored zero a h t m k f = absurd (omega arith)
swap_loop-mirrored (suc fuel) a h t m k f = elim (Bool-cases (ltb h t)) [
  | inr e ↦ (m, rw (swap_loop, e) refl, (λ o. mirror-stop a h t m o k e))
  | inl e ↦
      let u : Memory = update (update m (a + t) (m (a + h))) (a + h) (m (a + t)) in
      let (m', run, rest) =
        swap_loop-mirrored fuel a (h + 1) (t - 1) u (ground arith) (ground arith) in
      (m', rw (swap_loop, e) run, (λ o. rest o ∙ mirror-step a h t m o e))
]

-- The bytes of the turned string, of its '\0', and beside it.
mirrored-get_or :
    (a i : ℕ) (m : Memory) (cs : List ℕ)
    → Spells m a cs
    → i < length cs
    → mirrored a 0 (length cs - 1) m (a + i) ≡ get_or (reverse cs) i 0
mirrored-get_or a i m cs s h =
    let within : (leb (a + 0) (a + i) && leb (a + i) (a + (length cs - 1))) ≡ true = ground arith in
    let at : 2 * a + 0 + (length cs - 1) - (a + i) ≡ a + (length cs - 1 - i) = omega arith in
    rw (within, at)
      (Spells-get_or m a cs (length cs - 1 - i) s (omega arith) ∙ sym (get_or-reverse cs i h))

mirrored-end :
    (a : ℕ) (m : Memory) (cs : List ℕ)
    → Spells m a cs
    → mirrored a 0 (length cs - 1) m (a + length cs) ≡ 0
mirrored-end a m cs s =
    elim (Bool-cases (leb (a + 0) (a + length cs) && leb (a + length cs) (a + (length cs - 1)))) [
      | inl e ↦
          let at : 2 * a + 0 + (length cs - 1) - (a + length cs) ≡ a + length cs = ground arith in
          rw (e, at) (Spells-end m a cs s)
      | inr e ↦ rw e (Spells-end m a cs s)
    ]

mirrored-outside : (a n o : ℕ) (m : Memory) → inside a n o ≡ false → mirrored a 0 (n - 1) m o ≡ m o
mirrored-outside a n o m h = ground arith

-- `strrevers` of a string leaves the reversed string in its place, and no byte beside it changes. The
-- rounds are enough.
pub strrevers-reverse :
    (fuel a : ℕ) (m : Memory) (cs : List ℕ)
    → Spells m a cs
    → length cs < fuel
    → (m' : Memory) × (strrevers fuel a m ≡ some m')
      × Spells m' a (reverse cs)
      × ((o : ℕ) → (if inside a (length cs) o then m o else m' o) ≡ m o)
unfolding strrevers
strrevers-reverse fuel a m cs s h =
    let n = length cs in
    let (m', run, bytes) = swap_loop-mirrored fuel a 0 (n - 1) m (omega arith) (omega arith) in
    (
      m',
      rw (strrevers, strlen-length fuel m a cs s h) run,
      Spells-bytes m' a (reverse cs) (IsText-reverse cs (Spells-IsText m a cs s))
          (λ i lt. bytes (a + i) ∙ mirrored-get_or a i m cs s (omega (arith, length-reverse cs)))
          (ap (λ (k : ℕ). m' (a + k)) (length-reverse cs)
            ∙ bytes (a + length cs)
            ∙ mirrored-end a m cs s),
      (λ o. elim (Bool-cases (inside a (length cs) o)) [
        | inl e ↦ rw e refl
        | inr e ↦ rw e (bytes o ∙ mirrored-outside a (length cs) o m e)
      ]),
    )
