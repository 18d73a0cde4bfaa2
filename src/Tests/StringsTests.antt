-- ===== src/Tests/StringsTests.antt =====
-- Strings, libs/string/string.c: "ab" at 0x100 and "cb" at 0x200, zeros elsewhere.
use mathlib.Core.List.{reverse}
use bhos.Common.{ℕ, ◌≤◌, ◌≡◌, refl, arith, some, List, [], ◌∷◌, length, update, if◌then◌else◌}
use bhos.Bitmap.{Memory}
use bhos.Strings.{strcmp, strrevers, uint_to_string}
use bhos.Strings.Spelled.{Spells, inside}
use bhos.Strings.Reverse.{strrevers-reverse}
use bhos.Strings.Decimal.{AreDigits, read_decimal, uint_to_string-read_decimal}
use bhos.Strings.Compare.{some_gt, strcmp-some_gt}

abbrev two_strings : Memory
two_strings = update (update (update (update (λ _. 0) 0x100 b'a') 0x101 b'b') 0x200 b'c') 0x201 b'b'

abbrev ab : List ℕ
ab = b'a' ∷ b'b' ∷ []

abbrev cb : List ℕ
cb = b'c' ∷ b'b' ∷ []

ab-Spells : Spells two_strings 0x100 ab
ab-Spells = (refl, refl, (refl, refl, refl))

cb-Spells : Spells two_strings 0x200 cb
cb-Spells = (refl, refl, (refl, refl, refl))

-- "cb" is greater in its first character.
strcmp_test : strcmp 9 0x200 0x100 two_strings ≡ some 1
unfolding strcmp
strcmp_test = refl

strrevers-reverse_example :
    (m' : Memory) × (strrevers 3 0x100 two_strings ≡ some m')
    × Spells m' 0x100 (reverse ab)
    × ((o : ℕ) → (if inside 0x100 (length ab) o then two_strings o else m' o) ≡ two_strings o)
strrevers-reverse_example = strrevers-reverse 3 0x100 two_strings ab ab-Spells (omega arith)

uint_to_string-read_decimal_example :
    (cs : List ℕ) × (m' : Memory) × (uint_to_string 11 0x300 4096 two_strings ≡ some m')
    × Spells m' 0x300 cs
    × AreDigits cs
    × (length cs ≤ 10)
    × (read_decimal cs ≡ 4096)
    × ((o : ℕ) → (if inside 0x300 10 o then two_strings o else m' o) ≡ two_strings o)
uint_to_string-read_decimal_example =
    uint_to_string-read_decimal 11 0x300 4096 two_strings (omega arith) (omega arith)

strcmp-some_gt_example : strcmp 3 0x100 0x200 two_strings ≡ some (if some_gt ab cb then 1 else 0)
strcmp-some_gt_example =
    strcmp-some_gt 3 0x100 0x200 two_strings ab cb ab-Spells cb-Spells refl (omega arith)
