-- ===== src/Printk/Format/Convert.antt =====
-- One directive of `printk` is replaced by the text of its argument.
use bhos.Common.{
  ℕ, ◌+◌, ◌^◌, ◌<◌, ◌≤◌, ◌≡◌, refl, ◌∙◌, arith, Bool, true, false, Bool-cases, inl, inr, some, List,
  ◌∷◌, ◌++◌, length, length-append, if◌then◌else◌, ◌||◌,
}
use bhos.Bitmap.{Memory}
use bhos.Strings.{strlen}
use bhos.Strings.Spelled.{Spells, Spells-frame, inside, strlen-length}
use bhos.Printk.{insert_str}
use bhos.Printk.Insert.{IsLaid, insert_str-append}
use bhos.Printk.Format.{Places, Directive, text_of, put_text, convert}
use bhos.Printk.Format.Render.{
  shown, clear, IsGiven, of_numbers, of_printk, second_branch, clear-inside,
}
use bhos.Printk.Format.Step.{AreLaid, HasLiterals, text_of-shown, shown_off, place_of}

clear-other :
    (a n b k o : ℕ) → clear b (k + 1) a (n + 1) ≡ true → inside b k o ≡ true → inside a n o ≡ false
clear-other a n b k o h i = ground arith

inside-wider : (a n k o : ℕ) → n ≤ k → inside a n o ≡ true → inside a k o ≡ true
inside-wider a n k o h i = ground arith

inside-narrower : (a n k o : ℕ) → n ≤ k → inside a k o ≡ false → inside a n o ≡ false
inside-narrower a n k o h i = ground arith

out_numbers : (p : Places) (o : ℕ) → AreLaid p → inside p.out 99 o ≡ true → of_numbers p o ≡ false
out_numbers p o laid i =
    rw
      (
        clear-other p.decimal_buffer 10 p.out 99 o laid.out_decimal i,
        clear-other p.hex.static_hexstr 10 p.out 99 o laid.out_static i,
        clear-other p.hex.temp_arry 8 p.out 99 o laid.out_first i,
        clear-other p.hex.temp_arry2 8 p.out 99 o laid.out_second i,
      )
      refl

-- The arrays as `insert_str` wants them.
lay :
    (p : Places) (arg : ℕ) (m : Memory) (xs ys zs : List ℕ) (c d : ℕ)
    → AreLaid p
    → Spells m p.out (xs ++ (c ∷ d ∷ ys))
    → Spells m arg zs
    → length xs + length zs + length ys + 2 ≤ 99
    → clear p.out 100 arg (length zs + 1) ≡ true
    → clear p.temp 100 arg (length zs + 1) ≡ true
    → IsLaid p.temp p.out arg m xs ys zs c d
lay p arg m xs ys zs c d laid text argument room off_out off_temp = record {
  text = text;
  argument = argument;
  room = omega arith;
  array_out = ground (arith, laid.two_texts);
  array_arg = ground arith;
  arg_out = ground arith;
  whole = laid.temp_whole;
}

none_of : (a b c : Bool) → (a || b || c) ≡ false → (a ≡ false) × (b ≡ false) × (c ≡ false)
none_of a b c h = (ground arith, ground arith, ground arith)

frame_all :
    (p : Places) (n o : ℕ) (m m1 m2 : Memory)
    → n ≤ 99
    → (if of_numbers p o then m o else m1 o) ≡ m o
    → (if inside p.temp 99 o || inside p.out n o then m1 o else m2 o) ≡ m1 o
    → (if of_printk p o then m o else m2 o) ≡ m o
frame_all p n o m m1 m2 h first second = elim (Bool-cases (of_printk p o)) [
  | inl e ↦ rw e refl
  | inr e ↦
      let (out, temp, numbers) =
        none_of (inside p.out 99 o) (inside p.temp 99 o) (of_numbers p o) e in
      let narrow = inside-narrower p.out n 99 o h out in
      rw e (
        second_branch (inside p.temp 99 o || inside p.out n o) (m1 o) (m2 o)
          (rw (temp, narrow) refl) second
        ∙ second_branch (of_numbers p o) (m o) (m1 o) numbers first)
]

module _ (fuel : ℕ) (p : Places) (offset : ℕ) (arg : ℕ) (m m' : Memory) (n : ℕ) where
  put_run :
      insert_str fuel p.temp p.out arg offset m ≡ some m'
      → strlen fuel m' arg ≡ some n
      → put_text fuel p offset (arg, m) ≡ some (n, m')
  unfolding put_text
  put_run first second = rw (put_text, first, second) refl

convert_run :
    (fuel : ℕ) (p : Places) (d : Directive) (word offset : ℕ) (m : Memory) (r q : ℕ × Memory)
    → text_of fuel p d word m ≡ some r
    → put_text fuel p offset r ≡ some q
    → convert fuel p d word offset m ≡ some q
unfolding convert
convert_run fuel p d word offset m r q first second = rw (convert, first) second

-- A directive at index `length xs` is replaced by the text of its argument, which may be a string that
-- stands in memory beside the arrays; no byte but those that `printk` writes to changes.
pub convert-shown :
    (fuel : ℕ) (text : ℕ → List ℕ) (m : Memory) (p : Places) (k : Directive) (word c d : ℕ)
    (xs ys : List ℕ)
    → AreLaid p
    → HasLiterals m p
    → 100 < fuel
    → word < 2 ^ 32
    → IsGiven text m p k word
    → Spells m p.out (xs ++ (c ∷ d ∷ ys))
    → length xs + length (shown text k word) + length ys + 2 ≤ 99
    → (m' : Memory) × (convert fuel p k word (length xs) m ≡ some (length (shown text k word), m'))
      × Spells m' p.out ((xs ++ shown text k word) ++ ys)
      × ((o : ℕ) → (if of_printk p o then m o else m' o) ≡ m o)
convert-shown fuel text m p k word c d xs ys laid l enough small g spelled room =
    let zs = shown text k word in
    let arg = place_of p k word in
    let total = length xs + length zs + length ys in
    let (m1, first, argument, beside) =
      text_of-shown fuel text m p laid (omega arith) k word small g l in
    let (off_out, off_temp) = shown_off text m p laid l k word g in
    let kept = Spells-frame m m1 p.out (xs ++ (c ∷ d ∷ ys)) spelled (λ o i.
      second_branch (of_numbers p o) (m o) (m1 o)
        (out_numbers p o laid (
          inside-wider p.out (length (xs ++ (c ∷ d ∷ ys))) 99 o
            (omega (arith, length-append xs (c ∷ d ∷ ys))) i))
        (beside o)) in
    let (m2, second, longer, around) =
      insert_str-append fuel p.temp p.out arg m1 xs ys zs c d
        (lay p arg m1 xs ys zs c d laid kept argument room off_out off_temp) (omega arith) in
    let again = Spells-frame m1 m2 arg zs argument (λ o i.
      second_branch (inside p.temp 99 o || inside p.out total o) (m1 o) (m2 o)
        (rw
          (
            clear-inside p.temp 99 arg (length zs) o off_temp i,
            inside-narrower p.out total 99 o (omega arith)
                (clear-inside p.out 99 arg (length zs) o off_out i),
          )
          refl)
        (around o)) in
    (
      m2,
      convert_run fuel p k word (length xs) m (arg, m1) (length zs, m2) first
          (put_run fuel p (length xs) arg m1 m2 (length zs) second
            (strlen-length fuel m2 arg zs again (omega arith))),
      longer,
      (λ o. frame_all p total o m m1 m2 (omega arith) (beside o) (around o)),
    )
