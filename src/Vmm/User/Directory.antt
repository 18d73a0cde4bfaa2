-- ===== src/Vmm/User/Directory.antt =====
-- The page directory that `create_user_task_pdt` fills.
use bhos.Common.{
  ℕ, zero, suc, ◌+◌, ◌-◌, ◌*◌, ◌/◌, ◌%◌, ◌^◌, ◌<◌, ◌≤◌, ◌≡◌, refl, ap, ◌∙◌, arith, Bool, Bool-cases,
  inl, inr, ltb, leb, ◌==◌, ◌&&◌, if◌then◌else◌, u32, bit_and,
}
use bhos.Bitmap.One.{mask_page}
use bhos.Vmm.{Vmm, get_pte, get_pde, vmm_v2p}
use bhos.Vmm.Address.{get_pte_lem, vmm_v2p_lem}
use bhos.Vmm.Kernel.{AreWords}
use bhos.Vmm.User.{clear_words, copy_words, pdt_mapping_helper, mapping_last_pde, fill_pdt}

-- Address `b` is that of one of the `n` words from `a` on.
abbrev among : ℕ → ℕ → ℕ → Bool
among a n b = leb a b && ltb b (a + 4 * n) && ((b - a) % 4 == 0)

clear_words-zero :
    (a n : ℕ) (words : ℕ → ℕ) (b : ℕ)
    → a + 4 * n ≤ 2 ^ 32
    → clear_words a n words b ≡ (if among a n b then 0 else words b)
unfolding clear_words
clear_words-zero a zero words b h = ground arith
clear_words-zero a (suc n) words b h =
    let at : u32 (a + 4 * n) ≡ a + 4 * n = omega arith in
    rw (clear_words, at) (ground (arith, clear_words-zero a n words b (omega arith)))

copy_words-same :
    (dest src n : ℕ) (words : ℕ → ℕ) (b : ℕ)
    → dest + 4 * n ≤ src
    → src + 4 * n ≤ 2 ^ 32
    → copy_words dest src n words b ≡ (if among dest n b then words (src + (b - dest)) else words b)
unfolding copy_words
copy_words-same dest src zero words b h k = ground arith
copy_words-same dest src (suc n) words b h k =
    let to : u32 (dest + 4 * n) ≡ dest + 4 * n = omega arith in
    let from : u32 (src + 4 * n) ≡ src + 4 * n = omega arith in
    let source : copy_words dest src n words (src + 4 * n) ≡ words (src + 4 * n) =
      copy_words-same dest src n words (src + 4 * n) (omega arith) (omega arith) ∙ ground arith in
    let old = copy_words-same dest src n words b (omega arith) (omega arith) in
    rw (copy_words, to, from, source)
      (elim (Bool-cases (dest + 4 * n == b)) [
        | inl e ↦ let at : src + (b - dest) ≡ src + 4 * n = ground arith in rw at (ground arith)
        | inr e ↦ ground (arith, old)
      ])

get_pde_kernel : get_pde 0xC000_0000 ≡ 0xFFFF_FC00
unfolding get_pde
get_pde_kernel = refl

-- The words after the two copies, at an address that is not in the kernel's directory.
laid :
    (pdt : ℕ) (words : ℕ → ℕ) (b : ℕ)
    → pdt + 0x1000 ≤ 0xFFC0_0000
    → copy_words (u32 (pdt + 0xC00)) (get_pde 0xC000_0000) 256 (clear_words pdt 1024 words) b ≡ (
        if among (pdt + 0xC00) 256 b
        then words (0xFFFF_FC00 + (b - (pdt + 0xC00)))
        else if among pdt 1024 b
        then 0
        else words b)
laid pdt words b h =
    let to : u32 (pdt + 0xC00) ≡ pdt + 0xC00 = omega arith in
    let cleared = clear_words-zero pdt 1024 words in
    rw (to, get_pde_kernel)
      (copy_words-same (pdt + 0xC00) 0xFFFF_FC00 256 (clear_words pdt 1024 words) b (omega arith)
          (omega arith)
        ∙ ground (
          arith,
          cleared b (omega arith),
          cleared (0xFFFF_FC00 + (b - (pdt + 0xC00))) (omega arith),
        ))

entry_of_page :
    (pdt : ℕ) (words : ℕ → ℕ)
    → pdt + 0x1000 ≤ 0xFFC0_0000
    → copy_words
        (u32 (pdt + 0xC00))
        (get_pde 0xC000_0000)
        256
        (clear_words pdt 1024 words)
        (get_pte pdt)
      ≡ words (get_pte pdt)
entry_of_page pdt words h =
    laid pdt words (get_pte pdt) h ∙ ground (arith, get_pte_lem pdt (omega arith))

-- The entry by which the directory shows itself.
last_entry :
    (pdt : ℕ) (words : ℕ → ℕ)
    → AreWords words
    → pdt % 4096 ≡ 0
    → pdt + 0x1000 ≤ 0xFFC0_0000
    → let filled =
        copy_words (u32 (pdt + 0xC00)) (get_pde 0xC000_0000) 256 (clear_words pdt 1024 words) in
      u32 (bit_and (vmm_v2p filled pdt) 0xFFFF_F000 + 2 + 0 + 0x100 + 1)
      ≡ words (get_pte pdt) / 4096 * 4096 + 0x103
last_entry pdt words aw whole h =
    let filled =
      copy_words (u32 (pdt + 0xC00)) (get_pde 0xC000_0000) 256 (clear_words pdt 1024 words) in
    let entry = entry_of_page pdt words h in
    let small : filled (get_pte pdt) < 2 ^ 32 = omega (arith, entry, aw (get_pte pdt)) in
    let frame = vmm_v2p_lem filled pdt (omega arith) small in
    let page : vmm_v2p filled pdt ≡ words (get_pte pdt) / 4096 * 4096 =
      omega (arith, frame, entry, whole) in
    rw (page, mask_page (words (get_pte pdt) / 4096 * 4096) (omega (arith, aw (get_pte pdt))))
      (omega (arith, aw (get_pte pdt)))

-- The directory that a new task gets, at a page in front of the tables that show themselves: no entry
-- below 3 GB, the kernel's entries from there on, and in the last one the directory's own frame, for the
-- kernel alone.
pub fill_pdt-entries :
    (pdt : ℕ) (s : Vmm) (i : ℕ)
    → AreWords s.words
    → pdt % 4096 ≡ 0
    → pdt + 0x1000 ≤ 0xFFC0_0000
    → i < 1024
    → (fill_pdt pdt s).words (pdt + 4 * i) ≡ (
        if ltb i 768
        then 0
        else if ltb i 1023
        then s.words (0xFFFF_F000 + 4 * i)
        else s.words (get_pte pdt) / 4096 * 4096 + 0x103)
unfolding fill_pdt pdt_mapping_helper mapping_last_pde
fill_pdt-entries pdt s i aw whole h lt =
    let last : u32 (pdt + 0x1000 - 4) ≡ pdt + 4 * 1023 = omega arith in
    let own = last_entry pdt s.words aw whole h in
    let here = laid pdt s.words (pdt + 4 * i) h in
    elim (Bool-cases (ltb i 1023)) [
      | inr e ↦ let at : i ≡ 1023 = ground arith in rw (at, last) (ground (arith, own))
      | inl e ↦ elim (Bool-cases (ltb i 768)) [
        | inl f ↦ rw last (ground (arith, here))
        | inr f ↦
            let from : 0xFFFF_FC00 + (pdt + 4 * i - (pdt + 0xC00)) ≡ 0xFFFF_F000 + 4 * i =
              ground arith in
            let moved = ap s.words from in rw last (ground (arith, here, moved))
      ]
    ]
