-- ===== src/Printk/Format.antt =====
-- The loop of `printk` and `printk_color` in libs/printk/printk.c.
--
-- `args n` is the word that the (n+1)-th `va_arg` gives: whatever stands on the stack, also behind the last
-- argument. `none` says that the rounds of some loop are used up. The assignment `offset+strlen(..)-1`
-- and the `offset++` of the loop behind it are one sum.
pub mod Render
pub mod Step
pub mod Convert
pub mod Loop
use bhos.Common.{ℕ, zero, suc, ◌+◌, Bool, true, false, Option, none, some, ◌==◌, if◌then◌else◌}
use bhos.Bitmap.{Memory}
use bhos.Strings.{strlen, uint_to_string}
use bhos.Strings.Hex.{HexPlaces, num2hexstr}
use bhos.Printk.{insert_str}

-- The addresses of the local array `staticArry`, of the array of `insert_str`, and of the arrays of
-- `uintTostring` and `num2hexstr`.
pub record Places : Type 0 where
  pub out : ℕ
  pub temp : ℕ
  pub decimal_buffer : ℕ
  pub hex : HexPlaces

-- The directives that take an argument: %s, %d, and %H and %h with the value of `need0x`.
pub data Directive : Type 0 where
  as_string : Directive
  as_decimal : Directive
  as_hex : Bool → Directive

-- The character behind a '%'; %c and all other ones do nothing.
abbrev pub directive : ℕ → Option Directive
directive c =
    if c == b's'
    then some as_string
    else if c == b'd'
    then some as_decimal
    else if c == b'c'
    then none
    else if c == b'H'
    then some (as_hex true)
    else if c == b'h'
    then some (as_hex false)
    else none

-- The directive at address `charptr`.
unfoldable pub directive_at : Memory → ℕ → Option Directive
directive_at m charptr = if m charptr == b'%' then directive (m (charptr + 1)) else none

-- The address of the text of the argument, and the memory.
unfoldable pub text_of : ℕ → Places → Directive → ℕ → Memory → Option (ℕ × Memory)
text_of fuel p as_string word m = some (word, m)
text_of fuel p as_decimal word m = elim (uint_to_string fuel p.decimal_buffer word m) [
  | none ↦ none
  | some m' ↦ some (p.decimal_buffer, m')
]
text_of fuel p (as_hex need0x) word m = num2hexstr fuel p.hex word need0x m

-- The text in the place of the directive, and its length.
unfoldable pub put_text : ℕ → Places → ℕ → ℕ × Memory → Option (ℕ × Memory)
put_text fuel p offset (text, m) = elim (insert_str fuel p.temp p.out text offset m) [
  | none ↦ none
  | some m' ↦ elim (strlen fuel m' text) [ none ↦ none | some n ↦ some (n, m') ]
]

unfoldable pub convert : ℕ → Places → Directive → ℕ → ℕ → Memory → Option (ℕ × Memory)
unfolding text_of put_text
convert fuel p d word offset m = elim (text_of fuel p d word m) [
  | none ↦ none
  | some r ↦ put_text fuel p offset r
]

-- for(;*(output_str+offset)!='\0';offset++), where `next` arguments have been taken. The first number
-- counts the rounds of this loop, `fuel` those of the loops inside.
unfoldable pub format_loop : ℕ → ℕ → Places → (ℕ → ℕ) → ℕ → ℕ → Memory → Option Memory
unfolding directive_at
format_loop zero fuel p args next offset m = none
format_loop (suc rounds) fuel p args next offset m = elim (m (p.out + offset) == 0) [
  | true ↦ some m
  | false ↦ elim (directive_at m (p.out + offset)) [
    | none ↦ format_loop rounds fuel p args next (offset + 1) m
    | some d ↦ elim (convert fuel p d (args next) offset m) [
      | none ↦ none
      | some r ↦ format_loop rounds fuel p args (next + 1) (offset + r.0) r.1
    ]
  ]
]
