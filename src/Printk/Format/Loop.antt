-- ===== src/Printk/Format/Loop.antt =====
-- The loop of `printk` renders the format.
use bhos.Common.{
  ℕ, zero, suc, ◌+◌, ◌^◌, ◌<◌, ◌≤◌, ◌≡◌, refl, sym, ap, ◌∙◌, arith, Bool, true, false, Bool-cases,
  Option-cases, inl, inr, none, some, List, [], ◌∷◌, ◌++◌, length, length-append, ◌==◌,
  if◌then◌else◌,
}
use bhos.Bitmap.{Memory}
use bhos.Strings.Spelled.{Spells}
use bhos.Strings.Hex.Fixed.{append_assoc}
use bhos.Printk.Insert.{Spells-behind}
use bhos.Printk.Format.{Places, Directive, directive_at, convert, format_loop}
use bhos.Printk.Format.Render.{
  shown, render, needed, AreGiven, AreGiven-frame, of_printk, pair_directive, lead, render-none,
  needed-none, AreGiven-none, render-some, needed-some, AreGiven-some, length-needed,
}
use bhos.Printk.Format.Step.{AreLaid, HasLiterals, HasLiterals-frame}
use bhos.Printk.Format.Convert.{convert-shown}

directive_at-lead :
    (m : Memory) (a c : ℕ) (ys : List ℕ) → Spells m a (c ∷ ys) → directive_at m a ≡ lead (c ∷ ys)
unfolding directive_at
directive_at-lead m a c [] s =
    rw (directive_at, s.0, s.2)
      (elim (Bool-cases (c == b'%')) [ inl e ↦ rw e refl | inr e ↦ rw e refl ])
directive_at-lead m a c (d ∷ cs) s = rw (directive_at, s.0, s.2.0) refl

pub beside_both :
    (b : Bool) (x y z : ℕ)
    → (if b then x else y) ≡ x
    → (if b then y else z) ≡ y
    → (if b then x else z) ≡ x
beside_both b x y z first second = ground arith

module _ (fuel : ℕ) (text : ℕ → List ℕ) (args : ℕ → ℕ) (p : Places) (laid : AreLaid p)
    (enough : 100 < fuel) (small : (n : ℕ) → args n < 2 ^ 32) where
  -- The loop returns with the rest of the format rendered.
  abbrev Renders : ℕ → ℕ → ℕ → List ℕ → List ℕ → Memory → Type 0
  Renders rounds next offset xs ys m =
      (m' : Memory) × (format_loop rounds fuel p args next offset m ≡ some m')
      × Spells m' p.out (xs ++ render text args next ys)
      × ((o : ℕ) → (if of_printk p o then m o else m' o) ≡ m o)

  stop_here :
      (rounds next : ℕ) (xs : List ℕ) (m : Memory)
      → Spells m p.out (xs ++ [])
      → Renders (suc rounds) next (length xs) xs [] m
  unfolding format_loop render
  stop_here rounds next xs m s =
      let end : (m (p.out + length xs) == 0) ≡ true =
        ground (arith, Spells-behind m p.out (p.out + length xs) xs [] s refl) in
      (m, rw (format_loop, end) refl, s, (λ o. ground arith))

  plain_run :
      (rounds next offset : ℕ) (m m' : Memory)
      → (m (p.out + offset) == 0) ≡ false
      → directive_at m (p.out + offset) ≡ none
      → format_loop rounds fuel p args next (offset + 1) m ≡ some m'
      → format_loop (suc rounds) fuel p args next offset m ≡ some m'
  unfolding format_loop
  plain_run rounds next offset m m' go other rest = rw (format_loop, go, other) rest

  convert_step :
      (rounds next offset n : ℕ) (k : Directive) (m m1 m' : Memory)
      → (m (p.out + offset) == 0) ≡ false
      → directive_at m (p.out + offset) ≡ some k
      → convert fuel p k (args next) offset m ≡ some (n, m1)
      → format_loop rounds fuel p args (next + 1) (offset + n) m1 ≡ some m'
      → format_loop (suc rounds) fuel p args next offset m ≡ some m'
  unfolding format_loop
  convert_step rounds next offset n k m m1 m' go this one rest =
      rw (format_loop, go, this, one) rest

  plain_step :
      (rounds next c : ℕ) (xs ys : List ℕ) (m : Memory)
      → Spells m p.out (xs ++ (c ∷ ys))
      → lead (c ∷ ys) ≡ none
      → Renders rounds next (length (xs ++ (c ∷ []))) (xs ++ (c ∷ [])) ys m
      → Renders (suc rounds) next (length xs) xs (c ∷ ys) m
  plain_step rounds next c xs ys m s e (m', run, spelled, beside) =
      let here = Spells-behind m p.out (p.out + length xs) xs (c ∷ ys) s refl in
      let further : length (xs ++ (c ∷ [])) ≡ length xs + 1 = length-append xs (c ∷ []) in
      (
        m',
        plain_run rounds next (length xs) m m' (rw here.0 here.1)
            (directive_at-lead m (p.out + length xs) c ys here ∙ e)
            (sym (ap (λ (n : ℕ). format_loop rounds fuel p args next n m) further) ∙ run),
        rw
            (
              render-none text args next c ys e,
              ← append_assoc xs (c ∷ []) (render text args next ys),
            )
            spelled,
        beside,
      )

  some_step :
      (rounds next c d : ℕ) (k : Directive) (xs cs : List ℕ) (m m1 : Memory)
      → Spells m p.out (xs ++ (c ∷ d ∷ cs))
      → pair_directive c d ≡ some k
      → convert fuel p k (args next) (length xs) m ≡ some (length (shown text k (args next)), m1)
      → ((o : ℕ) → (if of_printk p o then m o else m1 o) ≡ m o)
      → Renders rounds
          (next + 1)
          (length (xs ++ shown text k (args next)))
          (xs ++ shown text k (args next))
          cs
          m1
      → Renders (suc rounds) next (length xs) xs (c ∷ d ∷ cs) m
  some_step rounds next c d k xs cs m m1 s e one around (m', run, spelled, beside) =
      let zs = shown text k (args next) in
      let here = Spells-behind m p.out (p.out + length xs) xs (c ∷ d ∷ cs) s refl in
      let further : length (xs ++ zs) ≡ length xs + length zs = length-append xs zs in
      (
        m',
        convert_step rounds next (length xs) (length zs) k m m1 m' (rw here.0 here.1)
            (directive_at-lead m (p.out + length xs) c (d ∷ cs) here ∙ e) one
            (sym (ap (λ (n : ℕ). format_loop rounds fuel p args (next + 1) n m1) further) ∙ run),
        rw
            (
              render-some text args next c d cs k e,
              ← append_assoc xs zs (render text args (next + 1) cs),
            )
            spelled,
        (λ o. beside_both (of_printk p o) (m o) (m1 o) (m' o) (around o) (beside o)),
      )

  pub format_loop-render :
      (rounds next : ℕ) (xs ys : List ℕ) (m : Memory)
      → Spells m p.out (xs ++ ys)
      → AreGiven text args m p next ys
      → HasLiterals m p
      → length xs + needed text args next ys ≤ 99
      → needed text args next ys < rounds
      → Renders rounds next (length xs) xs ys m
  unfolding needed AreGiven
  format_loop-render zero next xs ys m s g l room f = absurd (omega arith)
  format_loop-render (suc rounds) next xs [] m s g l room f = stop_here rounds next xs m s
  format_loop-render (suc rounds) next xs (c ∷ []) m s g l room f =
      let joint = length-append xs (c ∷ []) in
      plain_step rounds next c xs [] m s refl (
        format_loop-render rounds next (xs ++ (c ∷ [])) [] m (rw (append_assoc xs (c ∷ []) []) s) tt
          l (omega (arith, joint)) (omega arith))
  format_loop-render (suc rounds) next xs (c ∷ d ∷ cs) m s g l room f =
      elim (Option-cases (pair_directive c d)) [
        | inl e ↦
            let joint = length-append xs (c ∷ []) in
            let count = needed-none text args next c (d ∷ cs) e in
            plain_step rounds next c xs (d ∷ cs) m s e (
              format_loop-render rounds next (xs ++ (c ∷ [])) (d ∷ cs) m
                (rw (append_assoc xs (c ∷ []) (d ∷ cs)) s)
                (AreGiven-none text args next c m p (d ∷ cs) e g) l (omega (arith, joint, count))
                (omega (arith, count)))
        | inr (k, e) ↦
            let zs = shown text k (args next) in
            let joint = length-append xs zs in
            let count = needed-some text args next c d cs k e in
            let (given, later) = AreGiven-some text args next c d cs k e m p g in
            let (m1, one, spelled, around) =
              convert-shown fuel text m p k (args next) c d xs cs laid l enough (small next) given s
                (omega (arith, count, length-needed text args (next + 1) cs)) in
            some_step rounds next c d k xs cs m m1 s e one around (
              format_loop-render rounds (next + 1) (xs ++ zs) cs m1 spelled
                (AreGiven-frame text args m m1 p around (next + 1) cs later)
                (HasLiterals-frame m m1 p around l) (omega (arith, joint, count))
                (omega (arith, count)))
      ]
