-- ===== src/Tests/BitmapTests.antt =====
-- The page bitmap, kernel/modules/bitmap/bitmap.c, with sixteen pages from 0x1000_0000 on, of which
-- the first eight and page 9 are taken.
use bhos.Common.{ℕ, ◌≡◌, refl, ◌⊎◌, arith, update}
use bhos.Bitmap.{Memory, Bitmap, bitmap_alloc}
use bhos.Bitmap.One.{IsWellPlaced, AreBytes}
use bhos.Bitmap.Scan.{NoneFree, Takes, bitmap_alloc_lem}

abbrev pool : Bitmap
pool = record { vaddr_header = 0x500; length = 2; target_addr_header = 0x1000_0000 }

abbrev memory : Memory
memory = update (λ _. 0) 0x501 0xBF

pool-IsWellPlaced : IsWellPlaced pool
pool-IsWellPlaced = omega arith

memory-AreBytes : AreBytes memory
memory-AreBytes a = ground arith

bitmap_alloc_lem_example :
    NoneFree pool memory (bitmap_alloc pool memory)
    ⊎ ((n : ℕ) × Takes pool memory (bitmap_alloc pool memory) n)
bitmap_alloc_lem_example = bitmap_alloc_lem pool pool-IsWellPlaced memory memory-AreBytes

-- The lowest free page is page 8.
bitmap_alloc_run : (bitmap_alloc pool memory).0 ≡ 0x1000_8000
unfolding bitmap_alloc
bitmap_alloc_run = refl
