-- ===== src/Tests/FormatTests.antt =====
-- The printing functions of libs/printk/printk.c and the numbers of libs/string/string.c: the format
-- "%s=%H" at 0x1000, "ok" at 0x200, the two literals at 0x300 and 0x320, and the word 0xBEEF.
use bhos.Common.{
  ℕ, ◌≡◌, refl, arith, true, some, List, [], ◌∷◌, ◌==◌, if◌then◌else◌, Returns, replicate,
}
use bhos.Bitmap.{Memory}
use bhos.Strings.Spelled.{Spells, placed, inside}
use bhos.Strings.Hex.{HexPlaces, func, num2hexstr}
use bhos.Strings.Hex.Digits.{func-read_base, read_base}
use bhos.Strings.Hex.Pad.{AreApart}
use bhos.Strings.Hex.Fixed.{hex_fixed}
use bhos.Strings.Hex.Text.{num2hexstr-hex_fixed, of_arrays}
use bhos.Vga.{Screen, kputs_color}
use bhos.Printk.Format.{Places}
use bhos.Printk.Format.Render.{shown, render, needed, IsConst, AreGiven, of_printk}
use bhos.Printk.Format.Step.{AreLaid, HasLiterals}
use bhos.Printk.Print.{Console, printk_color}
use bhos.Printk.Print.Whole.{printk_color-render, IsUnlocked}
use bhos.Log.{info_format, error_format, warning_format}
use bhos.Tests.ThreadsTests.{no_pages}
use bhos.Tests.SyncTests.{free_lock, free_lock-IsFree}

abbrev eight_zeros : List ℕ
eight_zeros = replicate 8 b'0'

abbrev pub word_ok : List ℕ
word_ok = b'o' ∷ b'k' ∷ []

abbrev format : List ℕ
format = b'%' ∷ b's' ∷ b'=' ∷ b'%' ∷ b'H' ∷ []

-- The formats of the log.
abbrev log_strings : Memory
log_strings =
    placed 0x2000 info_format (placed 0x2040 error_format (placed 0x2080 warning_format (λ _. 0)))

abbrev pub strings : Memory
strings = placed 0x1000 format (
    placed 0x200 word_ok
      (placed 0x300 (b'0' ∷ b'x' ∷ eight_zeros) (placed 0x320 eight_zeros log_strings)))

abbrev hex_places : HexPlaces
hex_places = record {
  static_hexstr = 0x610;
  temp_arry = 0x620;
  temp_arry2 = 0x630;
  zero_0x = 0x300;
  zero_bare = 0x320;
}

abbrev pub places : Places
places = record { out = 0x400; temp = 0x500; decimal_buffer = 0x600; hex = hex_places }

hex_places-AreApart : AreApart hex_places
hex_places-AreApart = record {
  two_arrays = refl;
  first_static = refl;
  second_static = refl;
  first_whole = omega arith;
  second_whole = omega arith;
}

pub places-AreLaid : AreLaid places
places-AreLaid = record {
  two_texts = refl;
  out_decimal = refl;
  out_static = refl;
  out_first = refl;
  out_second = refl;
  temp_decimal = refl;
  temp_static = refl;
  hex_apart = hex_places-AreApart;
  out_whole = omega arith;
  temp_whole = omega arith;
}

bare-Spells : Spells strings 0x320 eight_zeros
bare-Spells = (
  refl,
  refl,
  (
    refl,
    refl,
    (refl, refl, (refl, refl, (refl, refl, (refl, refl, (refl, refl, (refl, refl, refl)))))),
  ),
)

long-Spells : Spells strings 0x300 (b'0' ∷ b'x' ∷ eight_zeros)
long-Spells = (
  refl,
  refl,
  (
    refl,
    refl,
    (
      refl,
      refl,
      (
        refl,
        refl,
        (refl, refl, (refl, refl, (refl, refl, (refl, refl, (refl, refl, (refl, refl, refl)))))),
      ),
    ),
  ),
)

pub strings-HasLiterals : HasLiterals strings places
strings-HasLiterals = record {
  long = record {
    spelled = long-Spells;
    off_out = refl;
    off_temp = refl;
    off_decimal = refl;
    off_static = refl;
    off_first = refl;
    off_second = refl;
  };
  bare = record {
    spelled = bare-Spells;
    off_out = refl;
    off_temp = refl;
    off_decimal = refl;
    off_static = refl;
    off_first = refl;
    off_second = refl;
  };
}

abbrev pub text_at : ℕ → List ℕ
text_at a = if a == 0x200 then word_ok else []

abbrev given_args : ℕ → ℕ
given_args n = if n == 0 then 0x200 else 0xBEEF

format-IsConst : IsConst strings places 0x1000 format
format-IsConst = record {
  spelled = (refl, refl, (refl, refl, (refl, refl, (refl, refl, (refl, refl, refl)))));
  off_out = refl;
  off_temp = refl;
  off_decimal = refl;
  off_static = refl;
  off_first = refl;
  off_second = refl;
}

pub word_ok-IsConst : IsConst strings places 0x200 word_ok
word_ok-IsConst = record {
  spelled = (refl, refl, (refl, refl, refl));
  off_out = refl;
  off_temp = refl;
  off_decimal = refl;
  off_static = refl;
  off_first = refl;
  off_second = refl;
}

given_args-AreGiven : AreGiven text_at given_args strings places 0 format
unfolding AreGiven
given_args-AreGiven = (word_ok-IsConst, (tt, tt))

abbrev pub blank : Screen
blank = record { video = λ _. 0; cursor_x = 0; cursor_y = 0; ports = [] }

abbrev pub console : Console
console = record {
  memory = strings;
  screen = blank;
  printk_lock = free_lock;
  printk_lock_init_flag = true;
}

abbrev printed_text : List ℕ
printed_text =
    b'o' ∷ b'k' ∷ b'=' ∷ b'0' ∷ b'x' ∷ b'0' ∷ b'0' ∷ b'0' ∷ b'0' ∷ b'B' ∷ b'E' ∷ b'E' ∷ b'F' ∷ []

func-read_base_example :
    (cs : List ℕ) × (m' : Memory) × (func 33 0x620 0xBEEF 16 strings ≡ some m')
    × Spells m' 0x620 cs
    × (read_base 16 0 cs ≡ 0xBEEF)
    × ((o : ℕ) → (if inside 0x620 32 o then strings o else m' o) ≡ strings o)
func-read_base_example =
    func-read_base 33 0x620 0xBEEF 16 strings (omega arith) (omega arith) (omega arith)
      (omega arith)

num2hexstr-hex_fixed_example :
    (m' : Memory) × (num2hexstr 9 hex_places 0xBEEF true strings ≡ some (0x610, m'))
    × Spells m' 0x610 (b'0' ∷ b'x' ∷ hex_fixed 8 0xBEEF)
    × (read_base 16 0 (hex_fixed 8 0xBEEF) ≡ 0xBEEF)
    × ((o : ℕ) → (if of_arrays hex_places o then strings o else m' o) ≡ strings o)
num2hexstr-hex_fixed_example =
    num2hexstr-hex_fixed 9 hex_places 0xBEEF strings hex_places-AreApart (omega arith) (omega arith)
      true long-Spells bare-Spells

printk_color-render_example :
    Returns
      (λ done t.
        (done ≡ true)
        × Spells t.memory 0x400 printed_text
        × (t.screen ≡ kputs_color printed_text 0 15 blank)
        × ((o : ℕ) → (if of_printk places o then strings o else t.memory o) ≡ strings o)
        × IsUnlocked console t)
      (printk_color no_pages 0x5000 0xB0 101 places 0x1000 0 15 given_args console)
unfolding render shown hex_fixed needed
printk_color-render_example =
    printk_color-render no_pages 0x5000 0xB0 101 places text_at given_args 0x1000 format 0 15 0x10
      (0x90 ∷ 0xA0 ∷ []) console places-AreLaid strings-HasLiterals format-IsConst
      given_args-AreGiven (λ n. ground arith) (omega arith) (omega arith) (λ _. free_lock-IsFree)
