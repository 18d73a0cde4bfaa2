-- ===== src/Bitmap/Fill.antt =====
-- The bytes that `memset` of libs/string/string.c writes.
use bhos.Common.{
  ℕ, zero, suc, ◌+◌, ◌%◌, ◌^◌, ◌≤◌, ◌≡◌, ◌∙◌, arith, u32, update, leb, ltb, ◌&&◌, if◌then◌else◌,
}
use bhos.Bitmap.{Memory, memset}

pub memset-bytes :
    (dest val len : ℕ) (m : Memory) (b : ℕ)
    → dest + len ≤ 2 ^ 32
    → memset dest val len m b ≡ (if leb dest b && ltb b (dest + len) then val % 2 ^ 8 else m b)
unfolding memset
memset-bytes dest val zero m b h = ground arith
memset-bytes dest val (suc zero) m b h = ground arith
memset-bytes dest val (suc (suc len)) m b h =
    let on : u32 (dest + 1) ≡ dest + 1 = omega arith in
    let rest =
      memset-bytes (dest + 1) val (suc len) (update m dest (val % 2 ^ 8)) b (omega arith) in
    rw (memset, on) (rest ∙ ground arith)
