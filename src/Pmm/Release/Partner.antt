-- ===== src/Pmm/Release/Partner.antt =====
-- The partner of a block in the buddy system.
use bhos.Common.{ℕ, zero, suc, ◌+◌, ◌%◌, ◌^◌, ◌≤◌, ◌<◌, ◌≡◌, ◌⊎◌, arith, ltb, if◌then◌else◌}
use bhos.Pmm.{get_partner_page_no}

-- The block that two partners form when they are merged begins at the lower one.
abbrev pub lower : ℕ → ℕ → ℕ
lower p q = if ltb q p then q else p

abbrev pub ArePartners : ℕ → ℕ → Type 0
ArePartners c p =
    (get_partner_page_no (get_partner_page_no p c) c ≡ p)
    × ((get_partner_page_no p c ≡ p + 2 ^ c) ⊎ (get_partner_page_no p c + 2 ^ c ≡ p))
    × (lower p (get_partner_page_no p c) % 2 ^ (c + 1) ≡ 0)

partner_at0 : (p : ℕ) → p % 1 ≡ 0 → p < 2 ^ 31 → ArePartners 0 p
unfolding get_partner_page_no
partner_at0 p h lt = ground arith

partner_at1 : (p : ℕ) → p % 2 ≡ 0 → p < 2 ^ 31 → ArePartners 1 p
unfolding get_partner_page_no
partner_at1 p h lt = ground arith

partner_at2 : (p : ℕ) → p % 4 ≡ 0 → p < 2 ^ 31 → ArePartners 2 p
unfolding get_partner_page_no
partner_at2 p h lt = ground arith

partner_at3 : (p : ℕ) → p % 8 ≡ 0 → p < 2 ^ 31 → ArePartners 3 p
unfolding get_partner_page_no
partner_at3 p h lt = ground arith

partner_at4 : (p : ℕ) → p % 16 ≡ 0 → p < 2 ^ 31 → ArePartners 4 p
unfolding get_partner_page_no
partner_at4 p h lt = ground arith

partner_at5 : (p : ℕ) → p % 32 ≡ 0 → p < 2 ^ 31 → ArePartners 5 p
unfolding get_partner_page_no
partner_at5 p h lt = ground arith

partner_at6 : (p : ℕ) → p % 64 ≡ 0 → p < 2 ^ 31 → ArePartners 6 p
unfolding get_partner_page_no
partner_at6 p h lt = ground arith

partner_at7 : (p : ℕ) → p % 128 ≡ 0 → p < 2 ^ 31 → ArePartners 7 p
unfolding get_partner_page_no
partner_at7 p h lt = ground arith

partner_at8 : (p : ℕ) → p % 256 ≡ 0 → p < 2 ^ 31 → ArePartners 8 p
unfolding get_partner_page_no
partner_at8 p h lt = ground arith

partner_at9 : (p : ℕ) → p % 512 ≡ 0 → p < 2 ^ 31 → ArePartners 9 p
unfolding get_partner_page_no
partner_at9 p h lt = ground arith

partner_at10 : (p : ℕ) → p % 1024 ≡ 0 → p < 2 ^ 31 → ArePartners 10 p
unfolding get_partner_page_no
partner_at10 p h lt = ground arith

-- For a block of a class up to `_1024` that begins at a multiple of its size: the partner's partner is
-- the block itself, the two lie side by side, and together they make a block of the next class that
-- begins at a multiple of its size.
pub get_partner_page_no_self : (c p : ℕ) → c ≤ 10 → p < 2 ^ 31 → p % 2 ^ c ≡ 0 → ArePartners c p
get_partner_page_no_self zero p le lt h = partner_at0 p h lt
get_partner_page_no_self (suc zero) p le lt h = partner_at1 p h lt
get_partner_page_no_self (suc (suc zero)) p le lt h = partner_at2 p h lt
get_partner_page_no_self (suc (suc (suc zero))) p le lt h = partner_at3 p h lt
get_partner_page_no_self (suc (suc (suc (suc zero)))) p le lt h = partner_at4 p h lt
get_partner_page_no_self (suc (suc (suc (suc (suc zero))))) p le lt h = partner_at5 p h lt
get_partner_page_no_self (suc (suc (suc (suc (suc (suc zero)))))) p le lt h = partner_at6 p h lt
get_partner_page_no_self (suc (suc (suc (suc (suc (suc (suc zero))))))) p le lt h =
    partner_at7 p h lt
get_partner_page_no_self (suc (suc (suc (suc (suc (suc (suc (suc zero)))))))) p le lt h =
    partner_at8 p h lt
get_partner_page_no_self (suc (suc (suc (suc (suc (suc (suc (suc (suc zero))))))))) p le lt h =
    partner_at9 p h lt
get_partner_page_no_self (suc (suc (suc (suc (suc (suc (suc (suc (suc (suc zero)))))))))) p le lt
      h =
    partner_at10 p h lt
get_partner_page_no_self (suc (suc (suc (suc (suc (suc (suc (suc (suc (suc (suc c))))))))))) p le lt
      h =
    absurd (omega arith)
