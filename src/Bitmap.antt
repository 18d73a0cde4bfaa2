-- ===== src/Bitmap.antt =====
-- The page bitmap, kernel/modules/bitmap/bitmap.c and include/bitmap.h.
--
-- Memory is a function from addresses to bytes. A bit that is 1 means a free page; page 0 is the
-- highest bit of the first byte. `int` products that exceed 2^31, as for the user pool of 3 GB, wrap
-- as unsigned ones do.
pub mod Bits
pub mod Fill
pub mod One
pub mod Scan
use bhos.Common.{
  ℕ, zero, suc, ◌+◌, ◌-◌, ◌*◌, ◌/◌, ◌%◌, ◌^◌, Bool, ◌&&◌, Option, none, some, leb, ltb, ◌==◌,
  if◌then◌else◌, u32, sub32, update, bit_and, bit_or,
}

-- The bytes of memory, by address.
abbrev pub Memory : Type 0
Memory = ℕ → ℕ

pub record Bitmap : Type 0 where
  pub vaddr_header : ℕ
  pub length : ℕ
  pub target_addr_header : ℕ

abbrev pub page_size : ℕ
page_size = 4096

abbrev pub return_erro : ℕ
return_erro = 0xFFFF_FFFF

-- memset: `len` bytes from `dest` on.
unfoldable pub memset : ℕ → ℕ → ℕ → Memory → Memory
memset dest val zero m = m
memset dest val (suc len) m = memset (u32 (dest + 1)) val len (update m dest (val % 2 ^ 8))

unfoldable pub bitmap_init_mem : Bitmap → Memory → Memory
bitmap_init_mem bm m = memset bm.vaddr_header 255 bm.length m

-- The range test of `bitmap_alloc_one_page` and `bitmap_release_one_page`.
unfoldable pub in_range : Bitmap → ℕ → Bool
in_range bm target =
    let max_addr = u32 (sub32 bm.target_addr_header 1 + u32 (u32 (bm.length * 8) * page_size)) in
    leb bm.target_addr_header target && ltb target max_addr

-- The number of the page that begins at `target`.
unfoldable pub page_num : Bitmap → ℕ → ℕ
page_num bm target = sub32 target bm.target_addr_header / page_size

abbrev pub byte_addr : Bitmap → ℕ → ℕ
byte_addr bm i = u32 (bm.vaddr_header + i)

-- 1 << (7 - j)
abbrev pub byte_mask : ℕ → ℕ
byte_mask j = 2 ^ (7 - j)

unfoldable pub bitmap_alloc_one_page : Bitmap → ℕ → Memory → ℕ × Memory
bitmap_alloc_one_page bm target0 m =
    let target = bit_and target0 0xFFFF_F000 in
    if in_range bm target
    then (let n = page_num bm target in
        let addr = byte_addr bm (n / 8) in
        let mask = byte_mask (n % 8) in
        if m addr == bit_or (m addr) mask
        then (target, update m addr ((m addr + 2 ^ 8 - mask) % 2 ^ 8))
        else (return_erro, m))
    else (return_erro, m)

unfoldable pub bitmap_release_one_page : Bitmap → ℕ → Memory → Memory
bitmap_release_one_page bm target0 m =
    let target = bit_and target0 0xFFFF_F000 in
    if in_range bm target
    then (let n = page_num bm target in
        let addr = byte_addr bm (n / 8) in update m addr (bit_or (m addr) (byte_mask (n % 8))))
    else m

-- for(int j = 0; j < 8; j++, byte_now = byte_now << 1): the first bit that is set. `rounds` is 8 - j.
unfoldable pub first_bit : ℕ → ℕ → ℕ → Option ℕ
first_bit zero j byte_now = none
first_bit (suc rounds) j byte_now =
    let later = first_bit rounds (j + 1) (byte_now * 2 % 2 ^ 8) in
    if byte_now == bit_and byte_now 0x7F then later else some j

-- The loop of `bitmap_alloc` over the bytes from `i` on; `rounds` is lenght - i. For a byte that is
-- not 0 the inner loop sets `pos`, so the second branch is never taken for bytes (`first_bit_lem`).
unfoldable pub bitmap_scan : Bitmap → ℕ → ℕ → Memory → ℕ × Memory
unfolding first_bit
bitmap_scan bm zero i m = (return_erro, m)
bitmap_scan bm (suc rounds) i m =
    let later = bitmap_scan bm rounds (i + 1) m in
    if m (byte_addr bm i) == 0 then later else elim (first_bit 8 0 (m (byte_addr bm i))) [
      | none ↦ (return_erro, m)
      | some pos ↦ (
        u32 (u32 ((i * 8 + pos) * page_size) + bm.target_addr_header),
        update m (byte_addr bm i) ((m (byte_addr bm i) + 2 ^ 8 - byte_mask pos) % 2 ^ 8),
      )
    ]

unfoldable pub bitmap_alloc : Bitmap → Memory → ℕ × Memory
unfolding bitmap_scan
bitmap_alloc bm m = bitmap_scan bm bm.length 0 m
