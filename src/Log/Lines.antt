-- ===== src/Log/Lines.antt =====
-- The lines that the log prints.
use bhos.Common.{
  ℕ, ◌+◌, ◌^◌, ◌<◌, ◌≤◌, ◌≡◌, refl, ap, ◌∙◌, arith, Bool, true, List, [], ◌∷◌, ◌++◌, length,
  Returns,
}
use bhos.Vga.{kputs_color, black, white}
use bhos.Printk.Format.{Places}
use bhos.Printk.Format.Render.{shown, render, needed, IsConst, AreGiven}
use bhos.Printk.Format.Step.{AreLaid, HasLiterals}
use bhos.Printk.Print.{Console, printk, printk_color}
use bhos.Printk.Print.Whole.{printk_color-render, IsUnlocked}
use bhos.Sync.Guarded.{IsFree}
use bhos.Log.{
  red, yellow, two_args, info_format, error_format, warning_format, info_kern, error_kern,
  warning_kern,
}

-- The name of a level, the source in brackets, the text, and the end of the line.
abbrev pub line : List ℕ → List ℕ → List ℕ → List ℕ
line level src text = level ++ (b'[' ∷ (src ++ (b']' ∷ (text ++ (10 ∷ [])))))

abbrev pub info_level : List ℕ
info_level = b'[' ∷ b'I' ∷ b'N' ∷ b'F' ∷ b'O' ∷ b']' ∷ []

abbrev pub error_level : List ℕ
error_level = b'[' ∷ b'E' ∷ b'R' ∷ b'R' ∷ b'O' ∷ b'R' ∷ b']' ∷ []

abbrev pub warning_level : List ℕ
warning_level = b'[' ∷ b'W' ∷ b'A' ∷ b'R' ∷ b'N' ∷ b'I' ∷ b'N' ∷ b'G' ∷ b']' ∷ []

-- A line stands on the screen in its colours; a lock in use is free again, and one not in use as it was.
abbrev pub Shows : List ℕ → ℕ → ℕ → Console → Bool → Console → Type 0
Shows cs back fore s done t =
    (done ≡ true) × (t.screen ≡ kputs_color cs back fore s.screen) × IsUnlocked s t

module _ (v2p : ℕ → ℕ) (kern_dir node fuel : ℕ) (p : Places) (strings : ℕ → List ℕ) (rest : ℕ → ℕ)
    (src text c : ℕ) (ns : List ℕ) (s : Console) (laid : AreLaid p) (l : HasLiterals s.memory p)
    (source : IsConst s.memory p src (strings src))
    (message : IsConst s.memory p text (strings text)) (src_word : src < 2 ^ 32)
    (text_word : text < 2 ^ 32) (rest_words : (n : ℕ) → rest n < 2 ^ 32)
    (short : length (strings src) + length (strings text) ≤ 83) (enough : 100 < fuel)
    (usable : s.printk_lock_init_flag ≡ true → IsFree s.printk_lock c ns) where
  words : (n : ℕ) → two_args src text rest n < 2 ^ 32
  words n = ground (arith, src_word, text_word, rest_words n)

  -- One line, for a format whose two directives take the two strings.
  print_line :
      (format back fore : ℕ) (fmt cs : List ℕ)
      → IsConst s.memory p format fmt
      → AreGiven strings (two_args src text rest) s.memory p 0 fmt
      → needed strings (two_args src text rest) 0 fmt ≤ 99
      → render strings (two_args src text rest) 0 fmt ≡ cs
      → Returns
          (Shows cs back fore s)
          (printk_color v2p kern_dir node fuel p format back fore (two_args src text rest) s)
  print_line format back fore fmt cs const given room same =
      let (done, t, run, (told, _, shown, _, unlocked)) =
        printk_color-render v2p kern_dir node fuel p strings (two_args src text rest) format fmt
          back fore c ns s laid l const given words room enough usable in
      (
        done,
        t,
        run,
        (told, shown ∙ ap (λ (xs : List ℕ). kputs_color xs back fore s.screen) same, unlocked),
      )

  -- The three levels of the log that return print a line each: the level, the source in brackets, the text
  -- and the end of the line, in white, red or yellow on black, for a source and a text of at most 83
  -- characters together, strings that stand apart from the arrays, and a lock that is free if it is in use.
  -- A lock in use is free afterwards, and one that `printk_init_lock` has not set up is as it was.
  pub log-line :
      (info error warning : ℕ)
      → IsConst s.memory p info info_format
      → IsConst s.memory p error error_format
      → IsConst s.memory p warning warning_format
      → Returns
          (Shows (line info_level (strings src) (strings text)) black white s)
          (info_kern v2p kern_dir node fuel p info rest src text s)
        × Returns
            (Shows (line error_level (strings src) (strings text)) black red s)
            (error_kern v2p kern_dir node fuel p error rest src text s)
        × Returns
            (Shows (line warning_level (strings src) (strings text)) black yellow s)
            (warning_kern v2p kern_dir node fuel p warning rest src text s)
  unfolding info_kern error_kern warning_kern AreGiven needed render shown printk
  log-line info error warning i e w = (
    print_line info black white info_format (line info_level (strings src) (strings text)) i
        (source, (message, tt)) (omega (arith, short)) refl,
    print_line error black red error_format (line error_level (strings src) (strings text)) e
        (source, (message, tt)) (omega (arith, short)) refl,
    print_line warning black yellow warning_format (line warning_level (strings src) (strings text))
        w (source, (message, tt)) (omega (arith, short)) refl,
  )
