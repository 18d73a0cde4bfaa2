-- ===== src/Strings.antt =====
-- Strings: libs/string/string.c and include/string.h, but for `memset` (with the page bitmap).
--
-- Memory is a function from addresses to bytes; no string runs round the end of the address space. A
-- loop gets a number of rounds, and the result `none` says that they were used up. An `int` result is its
-- 32-bit word.
pub mod Spelled
pub mod Copy
pub mod Compare
pub mod Reverse
pub mod Decimal
pub mod Hex
use bhos.Common.{
  ℕ, zero, suc, ◌+◌, ◌-◌, ◌*◌, ◌/◌, ◌%◌, ◌^◌, Bool, true, false, ◌&&◌, Option, none, some, ltb, leb,
  ◌==◌, update,
}
use bhos.Bitmap.{Memory, memset}

-- while(*(src+i) != '\0') i++;
unfoldable pub strlen_from : ℕ → Memory → ℕ → ℕ → Option ℕ
strlen_from zero m src i = none
strlen_from (suc fuel) m src i = elim (m (src + i) == 0) [
  | true ↦ some i
  | false ↦ strlen_from fuel m src (i + 1)
]

abbrev pub strlen : ℕ → Memory → ℕ → Option ℕ
strlen fuel m src = strlen_from fuel m src 0

unfoldable pub strcpy : ℕ → ℕ → ℕ → Memory → Option Memory
strcpy zero dest src m = none
strcpy (suc fuel) dest src m = elim (m src == 0) [
  | true ↦ some (update m dest 0)
  | false ↦ strcpy fuel (dest + 1) (src + 1) (update m dest (m src))
]

unfoldable pub memcpy : ℕ → ℕ → ℕ → Memory → Memory
memcpy dest src zero m = m
memcpy dest src (suc len) m = memcpy (dest + 1) (src + 1) len (update m dest (m src))

abbrev pub bzero : ℕ → ℕ → Memory → Memory
bzero dest len = memset dest 0 len

-- for(; *pointer != '\0'; pointer++); and the copy behind it.
unfoldable pub strcat : ℕ → ℕ → ℕ → Memory → Option Memory
strcat fuel dest src m = elim (strlen fuel m dest) [
  | none ↦ none
  | some n ↦ strcpy fuel (dest + n) src m
]

-- (int)*str1 > (int)*str2, where char is signed.
abbrev pub char_gt : ℕ → ℕ → Bool
char_gt c d = ltb ((d + 128) % 2 ^ 8) ((c + 128) % 2 ^ 8)

-- The second test repeats the first, as in the source.
unfoldable pub strcmp : ℕ → ℕ → ℕ → Memory → Option ℕ
strcmp zero str1 str2 m = none
strcmp (suc fuel) str1 str2 m = elim (m str1 == 0 && m str2 == 0) [
  | true ↦ some 0
  | false ↦ elim (char_gt (m str1) (m str2)) [
    | true ↦ some 1
    | false ↦ elim (char_gt (m str1) (m str2)) [
      | true ↦ some 0xFFFF_FFFF
      | false ↦ strcmp fuel (str1 + 1) (str2 + 1) m
    ]
  ]
]

-- for(; ptr_h < ptr_t;) { swap; ptr_h++; ptr_t--; }
unfoldable pub swap_loop : ℕ → ℕ → ℕ → ℕ → Memory → Option Memory
swap_loop zero str ptr_h ptr_t m = none
swap_loop (suc fuel) str ptr_h ptr_t m = elim (ltb ptr_h ptr_t) [
  | true ↦
      let temp = m (str + ptr_t) in
      swap_loop fuel str (ptr_h + 1) (ptr_t - 1)
        (update (update m (str + ptr_t) (m (str + ptr_h))) (str + ptr_h) temp)
  | false ↦ some m
]

-- The last index of an empty string is -1, for which 0 does as well: the loop does nothing.
unfoldable pub strrevers : ℕ → ℕ → Memory → Option Memory
strrevers fuel str m = elim (strlen fuel m str) [
  | none ↦ none
  | some lenth ↦ swap_loop fuel str 0 (lenth - 1) m
]

-- i2stable[index]
abbrev pub i2stable : ℕ → ℕ
i2stable index = b'0' + index

-- The loop of `uintTostring` and the two assignments behind it.
unfoldable pub put_digits : ℕ → ℕ → ℕ → Memory → Option Memory
put_digits zero num str_ptr m = none
put_digits (suc fuel) num str_ptr m = elim (leb 10 num) [
  | true ↦
      put_digits fuel (num / 10) (str_ptr + 1) (update m str_ptr (i2stable (num - num / 10 * 10)))
  | false ↦ some (update (update m str_ptr (i2stable num)) (str_ptr + 1) 0)
]

-- `uintTostring` with its static array at `buffer`.
unfoldable pub uint_to_string : ℕ → ℕ → ℕ → Memory → Option Memory
uint_to_string fuel buffer num m = elim (put_digits fuel num buffer m) [
  | none ↦ none
  | some filled ↦ strrevers fuel buffer filled
]
