-- ===== src/Tests/SetupTests.antt =====
-- The set-up of the page manager, `pmm_init` of kernel/modules/pmm/pmm.c: 15 MB of memory from 1 MB on, a
-- reserved entry, and a kernel that ends at 0x21_0000.
use bhos.Common.{◌+◌, ◌*◌, ◌<◌, ◌≤◌, ◌≡◌, ◌⊎◌, refl, arith, true, List, [], ◌∷◌, has, Returns}
use bhos.Pmm.{page_no_to_addr}
use bhos.Pmm.Setup.{PmEntry, get_max_pm_addr, pmm_init}
use bhos.Pmm.Setup.Init.{initial, IsInitial, first_single}
use bhos.Pmm.Setup.Cover.{IsCovered}
use bhos.Pmm.Setup.Map.{
  greatest, start_page, page_count, get_max_pm_addr-greatest, pmm_init-IsInitial,
}
use bhos.Tests.PmmTests.{blank}

abbrev pub entries : List PmEntry
entries =
    record { base_addr_low = 0; length_low = 0x9_FC00; kind = 1 }
    ∷ record { base_addr_low = 0x10_0000; length_low = 0xF0_0000; kind = 1 }
    ∷ record { base_addr_low = 0xFFFC_0000; length_low = 0x3_FFFF; kind = 2 }
    ∷ []

page_count_test : page_count 0x21_0000 entries ≡ 3567
page_count_test = refl

first_single_test : first_single 3567 ≡ 3072
first_single_test = refl

get_max_pm_addr-greatest_example : get_max_pm_addr entries ≡ greatest entries
get_max_pm_addr-greatest_example = get_max_pm_addr-greatest entries

pmm_init-IsInitial_example :
    Returns
      (λ _ t.
        IsInitial t (start_page 0x21_0000 * 4096) (page_count 0x21_0000 entries)
        × (IsCovered (initial (page_count 0x21_0000 entries)) 100
            ⊎ (has 100 (initial (page_count 0x21_0000 entries) 11) ≡ true))
        × (0x21_0000 < page_no_to_addr t 100)
        × (page_no_to_addr t 100 + 4096 ≤ greatest entries))
      (pmm_init 0x21_0000 entries blank)
pmm_init-IsInitial_example =
    pmm_init-IsInitial 0x21_0000 100 entries blank refl (omega arith) refl (omega arith)
