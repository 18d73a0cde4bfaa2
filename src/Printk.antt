-- ===== src/Printk.antt =====
-- `insert_str` of libs/printk/printk.c, which puts an argument into the place of its directive.
--
-- Memory, strings and rounds are those of Strings; `temp` is the address of the local array `m`.
pub mod Insert
pub mod Format
pub mod Print
use bhos.Common.{ℕ, ◌+◌, Option, none, some, update}
use bhos.Bitmap.{Memory, memset}
use bhos.Strings.{strlen, strcpy, memcpy, strcat}

-- The part behind `strcpy`, with both calls of `strlen` as in the source.
unfoldable pub insert_behind : ℕ → ℕ → ℕ → ℕ → ℕ → Memory → Option Memory
insert_behind fuel temp inserted inserting offset m = elim (strlen fuel m inserting) [
  | none ↦ none
  | some n ↦
      let copied = memcpy (inserted + offset) inserting n m in
      elim (strlen fuel copied inserting) [
        | none ↦ none
        | some k ↦ strcat fuel inserted temp (update copied (inserted + offset + k) 0)
      ]
]

unfoldable pub insert_str : ℕ → ℕ → ℕ → ℕ → ℕ → Memory → Option Memory
unfolding insert_behind
insert_str fuel temp inserted inserting offset m =
    elim (strcpy fuel temp (inserted + offset + 2) (memset temp 0 100 m)) [
      | none ↦ none
      | some saved ↦ insert_behind fuel temp inserted inserting offset saved
    ]
