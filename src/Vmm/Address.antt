-- ===== src/Vmm/Address.antt =====
-- The addresses at which a page table and the page directory show themselves, and the translation.
use bhos.Common.{
  ℕ, ◌+◌, ◌*◌, ◌/◌, ◌%◌, ◌^◌, ◌<◌, ◌≤◌, ◌≡◌, refl, ◌∙◌, arith, true, bit_and, bit_or, bit_and_low,
  bit_and_high, bit_or_sum, bit_and_mask, bit_or_one, ◌==◌, shr,
}
use bhos.Bitmap.One.{mask_page}
use bhos.Vmm.{
  get_pte, get_pde, present_test, check_vaddr_present, vmm_v2p, user_get_pde,
  vmm_user_check_pt_present,
}

join_parts :
    (a b : ℕ)
    → a < 1024
    → b < 1024
    → bit_or (bit_or 0xFFC0_0000 (a * 4096)) (b * 4) ≡ 0xFFC0_0000 + a * 4096 + b * 4
join_parts a b ha hb =
    let high : bit_or 0xFFC0_0000 (a * 4096) ≡ (0x3FF * 1024 + a) * 2 ^ 12 =
      bit_or_sum 22 0x3FF (a * 4096) (omega arith) ∙ omega arith in
    rw high (bit_or_sum 12 (0x3FF * 1024 + a) (b * 4) (omega arith) ∙ omega arith)

low_part : (b : ℕ) → b < 1024 → bit_and (b * 4) 0xFFF ≡ b * 4
low_part b h = omega (arith, bit_and_low 12 (b * 4))

-- The entry of a page stands at 4 times its page number behind 0xFFC0_0000.
pub get_pte_lem : (t : ℕ) → t < 2 ^ 32 → get_pte t ≡ 0xFFC0_0000 + t / 4096 * 4
unfolding get_pte
get_pte_lem t h =
    let base = t / 4096 * 4096 in
    let middle : bit_and (shr base 10) 0x003F_F000 ≡ t / 2 ^ 22 * 4096 =
      omega (arith, bit_and_high 12 (shr base 10) 0x3FF, bit_and_low 10 (shr base 10 / 2 ^ 12)) in
    let low : bit_and (shr base 12) 0x3FF ≡ t / 4096 % 1024 =
      omega (arith, bit_and_low 10 (shr base 12)) in
    rw (mask_page t h, middle, low, low_part (t / 4096 % 1024) (omega arith))
      (join_parts (t / 2 ^ 22) (t / 4096 % 1024) (omega arith) (omega arith) ∙ omega arith)

pub get_pde_lem : (t : ℕ) → t < 2 ^ 32 → get_pde t ≡ 0xFFFF_F000 + t / 2 ^ 22 * 4
unfolding get_pde
get_pde_lem t h =
    let base = t / 4096 * 4096 in
    let low : bit_and (shr base 22) 0x3FF ≡ t / 2 ^ 22 =
      omega (arith, bit_and_low 10 (shr base 22)) in
    rw (mask_page t h, low, low_part (t / 2 ^ 22) (omega arith))
      (join_parts 0x3FF (t / 2 ^ 22) (omega arith) (omega arith) ∙ omega arith)

-- The directory maps itself: for a 32-bit address the entry of the page that holds its page-table entry
-- is its page-directory entry. Both entries are words in the last 4 MB of the address space, and two
-- addresses share their page-table entry exactly when they lie on one page.
pub get_pte-get_pte :
    (t u : ℕ)
    → t < 2 ^ 32
    → u < 2 ^ 32
    → (get_pte (get_pte t) ≡ get_pde t)
      × (0xFFC0_0000 ≤ get_pte t)
      × (get_pte t < 2 ^ 32)
      × (get_pte t % 4 ≡ 0)
      × ((get_pte t == get_pte u) ≡ (t / 4096 == u / 4096))
get_pte-get_pte t u ht hu =
    let e = get_pte_lem t ht in
    let f = get_pte_lem u hu in
    (
      get_pte_lem (get_pte t) (omega (arith, e)) ∙ omega (arith, e, get_pde_lem t ht),
      omega (arith, e),
      omega (arith, e),
      omega (arith, e),
      rw (e, f) (ground arith),
    )

pub present_test-true : (w : ℕ) → present_test w ≡ true
unfolding present_test
present_test-true w = let same : (w == w) ≡ true = ground arith in rw same refl

check_vaddr_present-true : (words : ℕ → ℕ) (v : ℕ) → check_vaddr_present words v ≡ true
unfolding check_vaddr_present
check_vaddr_present-true words v =
    rw (present_test-true (words (get_pde v)), present_test-true (words (get_pte v))) refl

-- `vmm_v2p` of a 32-bit address is, for all contents of the page tables, the frame in the page-table
-- entry joined with the offset: it never is the error value for a page whose P bit is 0.
pub vmm_v2p_lem :
    (words : ℕ → ℕ) (v : ℕ)
    → v < 2 ^ 32
    → words (get_pte v) < 2 ^ 32
    → vmm_v2p words v ≡ words (get_pte v) / 4096 * 4096 + v % 4096
unfolding vmm_v2p
vmm_v2p_lem words v hv hw =
    let frame = mask_page (words (get_pte v)) hw in
    let low : bit_and 0xFFF v ≡ v % 4096 = bit_and_mask 12 v in
    rw (check_vaddr_present-true words v, frame, low)
      (bit_or_sum 12 (words (get_pte v) / 4096) (v % 4096) (omega arith))

-- The P bit of the user's directory entry decides `vmm_user_check_pt_present`.
pub vmm_user_check_pt_present_lem :
    (words : ℕ → ℕ) (pdt v : ℕ)
    → vmm_user_check_pt_present words pdt v ≡ (words (user_get_pde pdt v) % 2 == 1)
unfolding vmm_user_check_pt_present user_get_pde
vmm_user_check_pt_present_lem words pdt v = ground (arith, bit_or_one (words (user_get_pde pdt v)))
