-- ===== src/Strings/Hex/Pad.antt =====
-- The digits in `num2hexstr` move to the end of their array, behind '0's.
use bhos.Common.{
  ℕ, zero, suc, ◌+◌, ◌-◌, ◌^◌, ◌<◌, ◌≤◌, ◌≡◌, refl, ◌∙◌, arith, true, false, some, List, ◌++◌,
  length, leb, ltb, update, ◌&&◌, ◌||◌, replicate,
}
use bhos.Bitmap.{Memory, memset}
use bhos.Bitmap.Fill.{memset-bytes}
use bhos.Strings.Spelled.{
  Spells, Spells-at, Spells-frame, Spells-placed, Spells-IsText, placed, placed-outside, inside,
  strlen-length,
}
use bhos.Strings.Copy.{strcpy-placed}
use bhos.Strings.Hex.{HexPlaces, fill_zeros, pad_hex}

-- The three arrays of `num2hexstr` have no byte in common, and lie within the address space.
pub record AreApart (h : HexPlaces) : Type 0 where
  pub two_arrays : (leb (h.temp_arry + 9) h.temp_arry2 || leb (h.temp_arry2 + 9) h.temp_arry) ≡ true
  pub first_static :
      (leb (h.temp_arry + 9) h.static_hexstr || leb (h.static_hexstr + 11) h.temp_arry) ≡ true
  pub second_static :
      (leb (h.temp_arry2 + 9) h.static_hexstr || leb (h.static_hexstr + 11) h.temp_arry2) ≡ true
  pub first_whole : h.temp_arry + 9 ≤ 2 ^ 32
  pub second_whole : h.temp_arry2 + 9 ≤ 2 ^ 32

fill_zeros-outside :
    (t i count : ℕ) (m : Memory) (o : ℕ)
    → (leb (t + i) o && ltb o (t + i + count)) ≡ false
    → fill_zeros t i count m o ≡ m o
unfolding fill_zeros
fill_zeros-outside t i zero m o h = refl
fill_zeros-outside t i (suc count) m o h =
    fill_zeros-outside t (i + 1) count (update m (t + i) b'0') o (ground arith) ∙ ground arith

fill_zeros-Spells :
    (t i count : ℕ) (m : Memory) (cs : List ℕ)
    → Spells m (t + i + count) cs
    → Spells (fill_zeros t i count m) (t + i) (replicate count b'0' ++ cs)
unfolding fill_zeros
fill_zeros-Spells t i zero m cs s = Spells-at m (t + i + 0) (t + i) cs (omega arith) s
fill_zeros-Spells t i (suc count) m cs s =
    let u = update m (t + i) b'0' in
    let rest = fill_zeros-Spells t (i + 1) count u cs (
      Spells-at u (t + i + suc count) (t + (i + 1) + count) cs (omega arith)
        (Spells-frame m u (t + i + suc count) cs s (λ o k. ground arith))) in
    (
      fill_zeros-outside t (i + 1) count u (t + i) (ground arith) ∙ ground arith,
      refl,
      Spells-at (fill_zeros t (i + 1) count u) (t + (i + 1)) (t + i + 1)
          (replicate count b'0' ++ cs) (omega arith) rest,
    )

module _ (fuel : ℕ) (h : HexPlaces) (m : Memory) (cs : List ℕ) (apart : AreApart h)
    (text : Spells m h.temp_arry cs) (short : length cs ≤ 8) (enough : 8 < fuel) where
  abbrev offset : ℕ
  offset = 8 - length cs

  abbrev cleared : Memory
  cleared = memset h.temp_arry2 0 9 m

  abbrev copied : Memory
  copied = placed h.temp_arry2 cs cleared

  abbrev moved : Memory
  moved = placed (h.temp_arry + offset) cs copied

  copied_same : (o : ℕ) → inside h.temp_arry2 8 o ≡ false → copied o ≡ m o
  copied_same o k =
      placed-outside h.temp_arry2 cs cleared o (ground (arith, short))
      ∙ memset-bytes h.temp_arry2 0 9 m o apart.second_whole
      ∙ ground arith

  cleared_text : Spells cleared h.temp_arry cs
  cleared_text = Spells-frame m cleared h.temp_arry cs text (λ o k.
      memset-bytes h.temp_arry2 0 9 m o apart.second_whole
      ∙ ground (arith, apart.two_arrays, short))

  copied_text : Spells copied h.temp_arry cs
  copied_text =
      Spells-frame m copied h.temp_arry cs text
        (λ o k. copied_same o (ground (arith, apart.two_arrays, short)))

  copied_copy : Spells copied h.temp_arry2 cs
  copied_copy = Spells-placed h.temp_arry2 cs cleared (Spells-IsText m h.temp_arry cs text)

  moved_text : Spells moved (h.temp_arry + offset) cs
  moved_text = Spells-placed (h.temp_arry + offset) cs copied (Spells-IsText m h.temp_arry cs text)

  pad_run : pad_hex fuel h m ≡ some (fill_zeros h.temp_arry 0 offset moved)
  unfolding pad_hex
  pad_run =
      rw
        (
          pad_hex,
          strcpy-placed fuel h.temp_arry2 h.temp_arry cleared cs cleared_text
              (ground (arith, apart.two_arrays, short)) (omega (arith, short)),
          strlen-length fuel copied h.temp_arry cs copied_text (omega (arith, short)),
          strcpy-placed fuel (h.temp_arry + offset) h.temp_arry2 copied cs copied_copy
              (ground (arith, apart.two_arrays, short)) (omega (arith, short)),
        )
        refl

  pad_text :
      Spells (fill_zeros h.temp_arry 0 offset moved) h.temp_arry (replicate offset b'0' ++ cs)
  pad_text =
      Spells-at (fill_zeros h.temp_arry 0 offset moved) (h.temp_arry + 0) h.temp_arry
        (replicate offset b'0' ++ cs) (omega arith)
        (fill_zeros-Spells h.temp_arry 0 offset moved cs (
          Spells-at moved (h.temp_arry + offset) (h.temp_arry + 0 + offset) cs (omega arith)
            moved_text))

  pad_same :
      (o : ℕ)
      → (inside h.temp_arry 8 o || inside h.temp_arry2 8 o) ≡ false
      → fill_zeros h.temp_arry 0 offset moved o ≡ m o
  pad_same o k =
      fill_zeros-outside h.temp_arry 0 offset moved o (ground arith)
      ∙ placed-outside (h.temp_arry + offset) cs copied o (ground (arith, short))
      ∙ copied_same o (ground arith)

  -- A string of at most eight digits ends up with '0's in front of it, eight characters long, and no byte
  -- beside the two arrays changes.
  pub pad_hex-replicate :
      (m' : Memory) × (pad_hex fuel h m ≡ some m')
      × Spells m' h.temp_arry (replicate (8 - length cs) b'0' ++ cs)
      × ((o : ℕ) → (inside h.temp_arry 8 o || inside h.temp_arry2 8 o) ≡ false → m' o ≡ m o)
  pad_hex-replicate = (fill_zeros h.temp_arry 0 offset moved, pad_run, pad_text, pad_same)
