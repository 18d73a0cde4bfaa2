-- ===== src/Tests/PrintkTests.antt =====
-- `insert_str` of libs/printk/printk.c: "a%dz" at 0x100, the argument "cb" at 0x200, the local array at 0x800.
use bhos.Common.{ℕ, ◌+◌, ◌≡◌, refl, arith, some, List, [], ◌∷◌, ◌++◌, update, if◌then◌else◌, ◌||◌}
use bhos.Bitmap.{Memory}
use bhos.Strings.Spelled.{Spells, inside}
use bhos.Printk.{insert_str}
use bhos.Printk.Insert.{IsLaid, insert_str-append}

abbrev format : Memory
format = update (update (update (update (λ _. 0) 0x100 b'a') 0x101 b'%') 0x102 b'd') 0x103 b'z'

abbrev laid_out : Memory
laid_out = update (update format 0x200 b'c') 0x201 b'b'

abbrev before : List ℕ
before = b'a' ∷ []

abbrev rest : List ℕ
rest = b'z' ∷ []

abbrev argument : List ℕ
argument = b'c' ∷ b'b' ∷ []

laid_out-IsLaid : IsLaid 0x800 0x100 0x200 laid_out before rest argument b'%' b'd'
laid_out-IsLaid = record {
  text = (refl, refl, (refl, refl, (refl, refl, (refl, refl, refl))));
  argument = (refl, refl, (refl, refl, refl));
  room = omega arith;
  array_out = refl;
  array_arg = refl;
  arg_out = refl;
  whole = omega arith;
}

insert_str-append_example :
    (m' : Memory) × (insert_str 9 0x800 0x100 0x200 1 laid_out ≡ some m')
    × Spells m' 0x100 ((before ++ argument) ++ rest)
    × ((o : ℕ)
        → (if inside 0x800 99 o || inside 0x100 (1 + 2 + 1) o then laid_out o else m' o)
          ≡ laid_out o)
insert_str-append_example =
    insert_str-append 9 0x800 0x100 0x200 laid_out before rest argument b'%' b'd' laid_out-IsLaid
      (omega arith)
