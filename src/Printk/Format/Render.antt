-- ===== src/Printk/Format/Render.antt =====
-- What `printk` is to print, told on lists of characters.
use bhos.Common.{
  ℕ, ◌+◌, ◌≤◌, ◌≡◌, refl, arith, Bool, true, false, Option-cases, inl, inr, Option, none, some,
  List, [], ◌∷◌, ◌++◌, length, length-append, leb, ◌==◌, if◌then◌else◌, ◌||◌,
}
use mathlib.Core.Path.{subst}
use bhos.Bitmap.{Memory}
use bhos.Strings.Spelled.{Spells, Spells-frame, inside}
use bhos.Strings.Decimal.{decimal}
use bhos.Strings.Hex.Fixed.{hex_fixed}
use bhos.Strings.Hex.Text.{prefix, of_arrays}
use bhos.Printk.Format.{Places, Directive, as_string, as_decimal, as_hex, directive}

-- The text of an argument; `text` gives the string at an address.
unfoldable pub shown : (ℕ → List ℕ) → Directive → ℕ → List ℕ
shown text as_string word = text word
shown text as_decimal word = decimal word
shown text (as_hex need0x) word = prefix need0x ++ hex_fixed 8 word

-- The directive that two characters are.
abbrev pub pair_directive : ℕ → ℕ → Option Directive
pair_directive c d = if c == b'%' then directive d else none

module _ (text : ℕ → List ℕ) (args : ℕ → ℕ) where
  -- The format with every directive replaced by the text of its argument, in turn.
  unfoldable pub render : ℕ → List ℕ → List ℕ
  render next [] = []
  render next (c ∷ []) = c ∷ []
  render next (c ∷ d ∷ cs) =
      let rest = render next (d ∷ cs) in
      let behind = render (next + 1) cs in
      elim (pair_directive c d) [ none ↦ c ∷ rest | some k ↦ shown text k (args next) ++ behind ]

  -- The characters of the format and of the texts that take the place of its directives.
  unfoldable pub needed : ℕ → List ℕ → ℕ
  needed next [] = 0
  needed next (c ∷ []) = 1
  needed next (c ∷ d ∷ cs) =
      let rest = needed next (d ∷ cs) in
      let behind = needed (next + 1) cs in
      elim (pair_directive c d) [
        | none ↦ 1 + rest
        | some k ↦ 2 + length (shown text k (args next)) + behind
      ]

-- `n` bytes from `a` on and `k` from `b` on have none in common.
abbrev pub clear : ℕ → ℕ → ℕ → ℕ → Bool
clear a n b k = leb (a + n) b || leb (b + k) a

-- A string stands in memory beside the arrays of the texts and those in which numbers are converted.
pub record IsConst (m : Memory) (p : Places) (a : ℕ) (cs : List ℕ) : Type 0 where
  pub spelled : Spells m a cs
  pub off_out : clear p.out 100 a (length cs + 1) ≡ true
  pub off_temp : clear p.temp 100 a (length cs + 1) ≡ true
  pub off_decimal : clear p.decimal_buffer 11 a (length cs + 1) ≡ true
  pub off_static : clear p.hex.static_hexstr 11 a (length cs + 1) ≡ true
  pub off_first : clear p.hex.temp_arry 9 a (length cs + 1) ≡ true
  pub off_second : clear p.hex.temp_arry2 9 a (length cs + 1) ≡ true

-- The bytes in which numbers are converted, and all that the conversion writes.
abbrev pub of_numbers : Places → ℕ → Bool
of_numbers p o = inside p.decimal_buffer 10 o || of_arrays p.hex o

abbrev pub of_printk : Places → ℕ → Bool
of_printk p o = inside p.out 99 o || inside p.temp 99 o || of_numbers p o

pub clear-inside :
    (a n b k o : ℕ) → clear a (n + 1) b (k + 1) ≡ true → inside b k o ≡ true → inside a n o ≡ false
clear-inside a n b k o h i = ground arith

IsConst-outside :
    (m : Memory) (p : Places) (a : ℕ) (cs : List ℕ) (o : ℕ)
    → IsConst m p a cs
    → inside a (length cs) o ≡ true
    → of_printk p o ≡ false
IsConst-outside m p a cs o c i =
    let n = length cs in
    rw
      (
        clear-inside p.out 99 a n o c.off_out i,
        clear-inside p.temp 99 a n o c.off_temp i,
        clear-inside p.decimal_buffer 10 a n o c.off_decimal i,
        clear-inside p.hex.static_hexstr 10 a n o c.off_static i,
        clear-inside p.hex.temp_arry 8 a n o c.off_first i,
        clear-inside p.hex.temp_arry2 8 a n o c.off_second i,
      )
      refl

-- A choice that is known to take its second branch.
pub second_branch : (b : Bool) (x y : ℕ) → b ≡ false → (if b then x else y) ≡ x → y ≡ x
second_branch b x y e h = ground arith

pub IsConst-frame :
    (m m' : Memory) (p : Places) (a : ℕ) (cs : List ℕ)
    → IsConst m p a cs
    → ((o : ℕ) → (if of_printk p o then m o else m' o) ≡ m o)
    → IsConst m' p a cs
IsConst-frame m m' p a cs c same = record {
  spelled =
      Spells-frame m m' a cs c.spelled (λ o h.
        second_branch (of_printk p o) (m o) (m' o) (IsConst-outside m p a cs o c h) (same o));
  off_out = c.off_out;
  off_temp = c.off_temp;
  off_decimal = c.off_decimal;
  off_static = c.off_static;
  off_first = c.off_first;
  off_second = c.off_second;
}

-- A string argument stands in memory.
abbrev pub IsGiven : (ℕ → List ℕ) → Memory → Places → Directive → ℕ → Type 0
IsGiven text m p as_string word = IsConst m p word (text word)
IsGiven text m p as_decimal word = Unit
IsGiven text m p (as_hex need0x) word = Unit

abbrev GivenFor : (ℕ → List ℕ) → Memory → Places → ℕ → Option Directive → Type 0 → Type 0 → Type 0
GivenFor text m p word none Rest Behind = Rest
GivenFor text m p word (some k) Rest Behind = IsGiven text m p k word × Behind

module _ (text : ℕ → List ℕ) (args : ℕ → ℕ) (m : Memory) (p : Places) where
  -- Every string argument of the format stands in memory.
  unfoldable pub AreGiven : ℕ → List ℕ → Type 0
  AreGiven next [] = Unit
  AreGiven next (c ∷ []) = Unit
  AreGiven next (c ∷ d ∷ cs) =
      GivenFor text m p (args next) (pair_directive c d) (AreGiven next (d ∷ cs))
        (AreGiven (next + 1) cs)

module _ (text : ℕ → List ℕ) (args : ℕ → ℕ) where
  pub length-needed : (next : ℕ) (cs : List ℕ) → length cs ≤ needed text args next cs
  unfolding needed
  length-needed next [] = omega arith
  length-needed next (c ∷ []) = omega arith
  length-needed next (c ∷ d ∷ cs) = elim (Option-cases (pair_directive c d)) [
    | inl e ↦ rw (needed, e) (omega (arith, length-needed next (d ∷ cs)))
    | inr (k, e) ↦ rw (needed, e) (omega (arith, length-needed (next + 1) cs))
  ]

module _ (text : ℕ → List ℕ) (args : ℕ → ℕ) (m m' : Memory) (p : Places)
    (same : (o : ℕ) → (if of_printk p o then m o else m' o) ≡ m o) where
  pub IsGiven-frame :
      (k : Directive) (word : ℕ) → IsGiven text m p k word → IsGiven text m' p k word
  IsGiven-frame as_string word g = IsConst-frame m m' p word (text word) g same
  IsGiven-frame as_decimal word g = tt
  IsGiven-frame (as_hex need0x) word g = tt

  GivenFor-frame :
      (d : Option Directive) (word : ℕ) (R B R' B' : Type 0)
      → (R → R')
      → (B → B')
      → GivenFor text m p word d R B
      → GivenFor text m' p word d R' B'
  GivenFor-frame none word R B R' B' rest behind g = rest g
  GivenFor-frame (some k) word R B R' B' rest behind g = (IsGiven-frame k word g.0, behind g.1)

  pub AreGiven-frame :
      (next : ℕ) (cs : List ℕ) → AreGiven text args m p next cs → AreGiven text args m' p next cs
  unfolding AreGiven
  AreGiven-frame next [] g = tt
  AreGiven-frame next (c ∷ []) g = tt
  AreGiven-frame next (c ∷ d ∷ cs) g =
      GivenFor-frame (pair_directive c d) (args next) (AreGiven text args m p next (d ∷ cs))
        (AreGiven text args m p (next + 1) cs) (AreGiven text args m' p next (d ∷ cs))
        (AreGiven text args m' p (next + 1) cs) (AreGiven-frame next (d ∷ cs))
        (AreGiven-frame (next + 1) cs) g

-- The directive with which a format begins.
abbrev pub lead : List ℕ → Option Directive
lead [] = none
lead (c ∷ []) = none
lead (c ∷ d ∷ cs) = pair_directive c d

module _ (text : ℕ → List ℕ) (args : ℕ → ℕ) (next c : ℕ) where
  pub render-none :
      (ys : List ℕ)
      → lead (c ∷ ys) ≡ none
      → render text args next (c ∷ ys) ≡ c ∷ render text args next ys
  unfolding render
  render-none [] e = refl
  render-none (d ∷ cs) e = rw (render, e) refl

  pub needed-none :
      (ys : List ℕ)
      → lead (c ∷ ys) ≡ none
      → needed text args next (c ∷ ys) ≡ 1 + needed text args next ys
  unfolding needed
  needed-none [] e = refl
  needed-none (d ∷ cs) e = rw (needed, e) refl

  pub AreGiven-none :
      (m : Memory) (p : Places) (ys : List ℕ)
      → lead (c ∷ ys) ≡ none
      → AreGiven text args m p next (c ∷ ys)
      → AreGiven text args m p next ys
  unfolding AreGiven
  AreGiven-none m p [] e g = tt
  AreGiven-none m p (d ∷ cs) e g =
      subst
        (λ (o : Option Directive).
          GivenFor text m p (args next) o (AreGiven text args m p next (d ∷ cs))
            (AreGiven text args m p (next + 1) cs))
        e g

  module _ (d : ℕ) (cs : List ℕ) (k : Directive) (e : pair_directive c d ≡ some k) where
    pub render-some :
        render text args next (c ∷ d ∷ cs)
        ≡ shown text k (args next) ++ render text args (next + 1) cs
    unfolding render
    render-some = rw (render, e) refl

    pub needed-some :
        needed text args next (c ∷ d ∷ cs)
        ≡ 2 + length (shown text k (args next)) + needed text args (next + 1) cs
    unfolding needed
    needed-some = rw (needed, e) refl

    pub AreGiven-some :
        (m : Memory) (p : Places)
        → AreGiven text args m p next (c ∷ d ∷ cs)
        → IsGiven text m p k (args next) × AreGiven text args m p (next + 1) cs
    unfolding AreGiven
    AreGiven-some m p g =
        subst
          (λ (o : Option Directive).
            GivenFor text m p (args next) o (AreGiven text args m p next (d ∷ cs))
              (AreGiven text args m p (next + 1) cs))
          e g

module _ (text : ℕ → List ℕ) (args : ℕ → ℕ) where
  -- The result is not longer than what is needed.
  pub length-render :
      (next : ℕ) (cs : List ℕ) → length (render text args next cs) ≤ needed text args next cs
  unfolding render needed
  length-render next [] = omega arith
  length-render next (c ∷ []) = omega arith
  length-render next (c ∷ d ∷ cs) = elim (Option-cases (pair_directive c d)) [
    | inl e ↦ rw (render, needed, e) (omega (arith, length-render next (d ∷ cs)))
    | inr (k, e) ↦
        let joint = length-append (shown text k (args next)) (render text args (next + 1) cs) in
        rw (render, needed, e) (omega (arith, joint, length-render (next + 1) cs))
  ]
