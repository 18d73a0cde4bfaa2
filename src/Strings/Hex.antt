-- ===== src/Strings/Hex.antt =====
-- `func` and `num2hexstr` of libs/string/string.c: digits in a base, and the hexadecimal text of a word.
pub mod Digits
pub mod Pad
pub mod Fixed
pub mod Text
use bhos.Common.{
  ℕ, zero, suc, ◌+◌, ◌-◌, ◌/◌, ◌%◌, Bool, true, false, Option, none, some, List, [], ◌∷◌, get_or,
  ◌==◌, if◌then◌else◌, update,
}
use bhos.Bitmap.{Memory, memset}
use bhos.Strings.{strlen, strcpy}

-- char bit[] = {"0123456789ABCDEF"};
abbrev bit_table : List ℕ
bit_table =
    b'0' ∷ b'1' ∷ b'2' ∷ b'3' ∷ b'4' ∷ b'5' ∷ b'6' ∷ b'7' ∷ b'8' ∷ b'9' ∷ b'A' ∷ b'B' ∷ b'C' ∷ b'D'
    ∷ b'E' ∷ b'F' ∷ []

-- bit[index]
abbrev pub hex_bit : ℕ → ℕ
hex_bit index = get_or bit_table index 0

-- The part behind the recursive call: one digit at the end of the string at `s`.
unfoldable pub put_bit : ℕ → ℕ → ℕ → Memory → Option Memory
put_bit fuel s digit m = elim (strlen fuel m s) [
  | none ↦ none
  | some len ↦ some (update (update m (s + len) (hex_bit digit)) (s + len + 1) 0)
]

-- `i` is unsigned, so the division and the remainder are those of the word `n`.
unfoldable pub func : ℕ → ℕ → ℕ → ℕ → Memory → Option Memory
func zero s n i m = none
func (suc fuel) s n i m = elim (n == 0) [
  | true ↦ some (update m s 0)
  | false ↦ elim (func fuel s (n / i) i m) [ none ↦ none | some m' ↦ put_bit fuel s (n % i) m' ]
]

-- The addresses of the static array, of the two local arrays and of the two literals of `num2hexstr`.
pub record HexPlaces : Type 0 where
  pub static_hexstr : ℕ
  pub temp_arry : ℕ
  pub temp_arry2 : ℕ
  pub zero_0x : ℕ
  pub zero_bare : ℕ

-- for(int i=0;i<offset;i++) *(temp_arry+i)='0', from index `i` with `count` rounds left.
unfoldable pub fill_zeros : ℕ → ℕ → ℕ → Memory → Memory
fill_zeros temp_arry i zero m = m
fill_zeros temp_arry i (suc count) m =
    fill_zeros temp_arry (i + 1) count (update m (temp_arry + i) b'0')

-- The digits at the start of `temp_arry` moved to its end, with '0's in front: `func` leaves at most
-- eight of them, so the offset is not negative.
unfoldable pub pad_hex : ℕ → HexPlaces → Memory → Option Memory
pad_hex fuel h m =
    let cleared = memset h.temp_arry2 0 9 m in
    elim (strcpy fuel h.temp_arry2 h.temp_arry cleared) [
      | none ↦ none
      | some copied ↦ elim (strlen fuel copied h.temp_arry) [
        | none ↦ none
        | some len ↦ elim (strcpy fuel (h.temp_arry + (8 - len)) h.temp_arry2 copied) [
          | none ↦ none
          | some moved ↦ some (fill_zeros h.temp_arry 0 (8 - len) moved)
        ]
      ]
    ]

-- The digits of a number other than 0, padded, in `temp_arry`.
unfoldable pub hex_digits : ℕ → HexPlaces → ℕ → Memory → Option Memory
hex_digits fuel h number m =
    let begun = update (update m h.static_hexstr b'0') (h.static_hexstr + 1) b'x' in
    elim (func fuel h.temp_arry number 16 (memset h.temp_arry 0 9 begun)) [
      | none ↦ none
      | some counted ↦ pad_hex fuel h counted
    ]

-- The address of the text and the memory.
unfoldable pub num2hexstr : ℕ → HexPlaces → ℕ → Bool → Memory → Option (ℕ × Memory)
num2hexstr fuel h number need0x m = elim (number == 0) [
  | true ↦ some (if need0x then h.zero_0x else h.zero_bare, m)
  | false ↦ elim (hex_digits fuel h number m) [
    | none ↦ none
    | some padded ↦
        let dest = if need0x then h.static_hexstr + 2 else h.static_hexstr in
        elim (strcpy fuel dest h.temp_arry padded) [
          | none ↦ none
          | some m' ↦ some (h.static_hexstr, m')
        ]
  ]
]
