-- ===== src/Printk/Insert.antt =====
-- `insert_str` replaces a directive of two characters by a string.
use bhos.Common.{
  ℕ, suc, ◌+◌, ◌-◌, ◌^◌, ◌<◌, ◌≤◌, ◌≡◌, refl, sym, ap, ◌∙◌, arith, Bool, true, false, Bool-cases,
  inl, inr, some, List, [], ◌∷◌, ◌++◌, length, length-append, leb, ltb, if◌then◌else◌, update, ◌&&◌,
  ◌||◌,
}
use bhos.Bitmap.{Memory, memset}
use bhos.Bitmap.Fill.{memset-bytes}
use bhos.Strings.{strcpy, memcpy, strcat}
use bhos.Strings.Spelled.{
  Spells, Spells-at, Spells-frame, Spells-placed, Spells-IsText, placed, placed-outside, inside,
  strlen-length,
}
use bhos.Strings.Copy.{strcpy-placed, strcat-append, memcpy-bytes}
use bhos.Printk.{insert_behind, insert_str}

-- The end of a string is a string.
pub Spells-behind :
    (m : Memory) (a b : ℕ) (cs ds : List ℕ)
    → Spells m a (cs ++ ds)
    → b ≡ a + length cs
    → Spells m b ds
Spells-behind m a b [] ds s e = Spells-at m a b ds (omega (arith, e)) s
Spells-behind m a b (c ∷ cs) ds s e = Spells-behind m (a + 1) b cs ds s.2 (omega (arith, e))

-- The beginning of a string, kept by a change behind it, with a new end.
Spells-join :
    (m m' : Memory) (a b : ℕ) (cs ds es : List ℕ)
    → Spells m a (cs ++ ds)
    → b ≡ a + length cs
    → ((o : ℕ) → (leb a o && ltb o b) ≡ true → m' o ≡ m o)
    → Spells m' b es
    → Spells m' a (cs ++ es)
Spells-join m m' a b [] ds es s e same t = Spells-at m' b a es (omega (arith, e)) t
Spells-join m m' a b (c ∷ cs) ds es s e same t = (
  same a (ground (arith, e)) ∙ s.0,
  s.1,
  Spells-join m m' (a + 1) b cs ds es s.2 (omega (arith, e)) (λ o h. same o (ground arith)) t,
)

-- A copy of a string's characters, with a '\0' behind them.
Spells-copy :
    (m m' : Memory) (a b : ℕ) (cs : List ℕ)
    → Spells m a cs
    → ((i : ℕ) → i < length cs → m' (b + i) ≡ m (a + i))
    → m' (b + length cs) ≡ 0
    → Spells m' b cs
Spells-copy m m' a b [] s same end = ap m' (omega arith) ∙ end
Spells-copy m m' a b (c ∷ cs) s same end = (
  ap m' (omega arith) ∙ same 0 (omega arith) ∙ ap m (omega arith) ∙ s.0,
  s.1,
  Spells-copy m m' (a + 1) (b + 1) cs s.2
      (λ i lt. ap m' (omega arith) ∙ same (suc i) (omega arith) ∙ ap m (omega arith))
      (ap m' (omega arith) ∙ end),
)

-- The string `xs`, a directive of two characters and `ys` at `out`, the argument `zs` at `arg`, and the local
-- array at `temp`: no two of them overlap, also with the longer string at `out`, and the array has room.
pub record IsLaid (temp out arg : ℕ) (m : Memory) (xs ys zs : List ℕ) (p q : ℕ) : Type 0 where
  pub text : Spells m out (xs ++ (p ∷ q ∷ ys))
  pub argument : Spells m arg zs
  pub room : length ys < 100
  pub array_out :
      (leb (temp + 100) out || ltb (out + (length xs + length zs + length ys + 2)) temp) ≡ true
  pub array_arg : (leb (temp + 100) arg || ltb (arg + length zs) temp) ≡ true
  pub arg_out :
      (ltb (out + (length xs + length zs + length ys + 2)) arg || ltb (arg + length zs) out) ≡ true
  pub whole : temp + 100 ≤ 2 ^ 32

module _ (fuel temp out arg : ℕ) (m : Memory) (xs ys zs : List ℕ) (p q : ℕ)
    (l : IsLaid temp out arg m xs ys zs p q)
    (enough : length xs + length zs + length ys < fuel) where
  abbrev spot : ℕ
  spot = out + length xs

  abbrev saved : Memory
  saved = placed temp ys (memset temp 0 100 m)

  abbrev ended : Memory
  ended = update (memcpy spot arg (length zs) saved) (spot + length zs) 0

  saved_same : (o : ℕ) → inside temp 99 o ≡ false → saved o ≡ m o
  saved_same o h =
      placed-outside temp ys (memset temp 0 100 m) o (ground (arith, l.room))
      ∙ memset-bytes temp 0 100 m o l.whole
      ∙ ground arith

  ended_same : (o : ℕ) → (leb spot o && leb o (spot + length zs)) ≡ false → ended o ≡ saved o
  ended_same o h =
      let copied = memcpy-bytes spot arg (length zs) saved o (ground (arith, l.arg_out)) in
      ground (arith, copied)

  rest_text : Spells m (spot + 2) ys
  rest_text =
      let behind = Spells-behind m out spot xs (p ∷ q ∷ ys) l.text refl in
      Spells-at m (spot + 1 + 1) (spot + 2) ys (omega arith) behind.2.2

  save : strcpy fuel temp (spot + 2) (memset temp 0 100 m) ≡ some saved
  save =
      strcpy-placed fuel temp (spot + 2) (memset temp 0 100 m) ys
        (Spells-frame m (memset temp 0 100 m) (spot + 2) ys rest_text
          (λ o h. memset-bytes temp 0 100 m o l.whole ∙ ground (arith, l.array_out)))
        (ground (arith, l.array_out)) (omega arith)

  saved_argument : Spells saved arg zs
  saved_argument =
      Spells-frame m saved arg zs l.argument (λ o h. saved_same o (ground (arith, l.array_arg)))

  copied_argument : Spells (memcpy spot arg (length zs) saved) arg zs
  copied_argument =
      Spells-frame saved (memcpy spot arg (length zs) saved) arg zs saved_argument (λ o h.
        memcpy-bytes spot arg (length zs) saved o (ground (arith, l.arg_out))
        ∙ ground (arith, l.arg_out))

  ended_text : Spells ended out (xs ++ zs)
  ended_text =
      Spells-join m ended out spot xs (p ∷ q ∷ ys) zs l.text refl
        (λ o h. ended_same o (ground arith) ∙ saved_same o (ground (arith, l.array_out)))
        (Spells-copy saved ended arg spot zs saved_argument
          (λ i lt.
            let at : arg + (spot + i - spot) ≡ arg + i = omega arith in
            let moved = ap saved at in
            let copied =
              memcpy-bytes spot arg (length zs) saved (spot + i) (ground (arith, l.arg_out)) in
            ground (arith, copied, moved))
          (ground arith))

  ended_array : Spells ended temp ys
  ended_array =
      Spells-frame saved ended temp ys
        (Spells-placed temp ys (memset temp 0 100 m) (Spells-IsText m (spot + 2) ys rest_text))
        (λ o h. ended_same o (ground (arith, l.array_out, l.room)))

  behind_run :
      (m' : Memory)
      → strcat fuel out temp ended ≡ some m'
      → insert_behind fuel temp out arg (length xs) saved ≡ some m'
  unfolding insert_behind
  behind_run m' joined =
      rw
        (
          insert_behind,
          strlen-length fuel saved arg zs saved_argument (omega arith),
          strlen-length fuel (memcpy spot arg (length zs) saved) arg zs copied_argument
              (omega arith),
        )
        joined

  insert_run :
      (m' : Memory)
      → strcat fuel out temp ended ≡ some m'
      → insert_str fuel temp out arg (length xs) m ≡ some m'
  unfolding insert_str
  insert_run m' joined = rw (insert_str, save) (behind_run m' joined)

  beside_all :
      (m' : Memory)
      → ((o : ℕ)
          → (if inside (out + length (xs ++ zs)) (length ys) o then ended o else m' o) ≡ ended o)
      → (o : ℕ)
      → (if inside temp 99 o || inside out (length xs + length zs + length ys) o then m o else m' o)
        ≡ m o
  beside_all m' beside o =
      elim (Bool-cases (inside temp 99 o || inside out (length xs + length zs + length ys) o)) [
        | inl e ↦ rw e refl
        | inr e ↦
            let outer : inside (out + length (xs ++ zs)) (length ys) o ≡ false =
              ground (arith, length-append xs zs) in
            let same = sym (ap (λ (b : Bool). if b then ended o else m' o) outer) ∙ beside o in
            rw e (same ∙ ended_same o (ground arith) ∙ saved_same o (ground arith))
      ]

  -- `insert_str` at a directive of two characters puts the argument into its place and keeps the text in
  -- front of it and behind it, for an argument, a text and a local array that lie apart and a rest of at
  -- most 99 characters. It returns, and changes no byte beside the text and the array.
  pub insert_str-append :
      (m' : Memory) × (insert_str fuel temp out arg (length xs) m ≡ some m')
      × Spells m' out ((xs ++ zs) ++ ys)
      × ((o : ℕ)
          → (if inside temp 99 o || inside out (length xs + length zs + length ys) o
              then m o
              else m' o)
            ≡ m o)
  insert_str-append =
      let joint = length-append xs zs in
      let (m', joined, spelled, beside) =
        strcat-append fuel out temp ended (xs ++ zs) ys ended_text ended_array
          (ground (arith, l.array_out, l.room, joint)) (omega (arith, joint)) (omega arith) in
      (m', insert_run m' joined, spelled, beside_all m' beside)
