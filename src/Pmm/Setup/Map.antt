-- ===== src/Pmm/Setup/Map.antt =====
-- The memory map, and the pages that `pmm_init` makes of it.
use bhos.Common.{
  ℕ, ◌+◌, ◌-◌, ◌*◌, ◌/◌, ◌^◌, ◌<◌, ◌≤◌, ◌≡◌, refl, ◌∙◌, arith, true, ◌⊎◌, none, has, List, [], ◌∷◌,
  ltb, ◌==◌, ◌&&◌, if◌then◌else◌, u32, sub32, shr, Returns,
}
use bhos.Pmm.{Pmm, page_no_to_addr}
use bhos.Pmm.Setup.{PmEntry, max_pm_addr_from, get_max_pm_addr, array_fits, pmm_page_init, pmm_init}
use bhos.Pmm.Setup.Cover.{IsCovered, initial-IsCovered}
use bhos.Pmm.Setup.Init.{initial, IsInitial, pmm_page_init-IsInitial}

-- The end of an entry's memory, or 0 if it is not for use.
abbrev pub usable_end : PmEntry → ℕ
usable_end e = if e.kind == 1 then u32 (e.base_addr_low + e.length_low) else 0

abbrev pub greatest : List PmEntry → ℕ
greatest [] = 0
greatest (e ∷ es) = let rest = greatest es in if ltb rest (usable_end e) then usable_end e else rest

max_pm_addr_from-greatest :
    (m : ℕ) (es : List PmEntry)
    → max_pm_addr_from m es ≡ (if ltb m (greatest es) then greatest es else m)
unfolding max_pm_addr_from
max_pm_addr_from-greatest m [] = ground arith
max_pm_addr_from-greatest m (e ∷ es) =
    let end = u32 (e.base_addr_low + e.length_low) in
    max_pm_addr_from-greatest (if e.kind == 1 && ltb m end then end else m) es ∙ ground arith

-- `get_max_pm_addr` is the greatest end of an entry for use, in the order of 32-bit words, and 0 if there
-- is none.
pub get_max_pm_addr-greatest : (es : List PmEntry) → get_max_pm_addr es ≡ greatest es
get_max_pm_addr-greatest es = max_pm_addr_from-greatest 0 es ∙ ground arith

greatest-small : (es : List PmEntry) → greatest es < 2 ^ 32
greatest-small [] = omega arith
greatest-small (e ∷ es) = ground (arith, greatest-small es)

-- The page behind the kernel, and the number of pages from there to the end of the memory.
abbrev pub start_page : ℕ → ℕ
start_page kern_end = kern_end / 4096 + 1

abbrev pub page_count : ℕ → List PmEntry → ℕ
page_count kern_end es = greatest es / 4096 - start_page kern_end

abbrev with_pages : ℕ → List PmEntry → Pmm → Pmm
with_pages kern_end es s = record s {
  page_start = start_page kern_end * 4096;
  max_page_no = page_count kern_end es;
}

pmm_init-page_init :
    (kern_end : ℕ) (es : List PmEntry) (s : Pmm)
    → 2048 < page_count kern_end es
    → pmm_init kern_end es s ≡ pmm_page_init (with_pages kern_end es s)
unfolding pmm_init
pmm_init-page_init kern_end es s lo =
    let top = get_max_pm_addr-greatest es in
    let small = greatest-small es in
    let first : u32 ((shr kern_end 12 + 1) * 2 ^ 12) ≡ start_page kern_end * 4096 =
      omega (arith, small) in
    let count : shr (sub32 (u32 (shr (greatest es) 12 * 2 ^ 12)) (start_page kern_end * 4096)) 12
        ≡ page_count kern_end es =
      omega (arith, small) in
    rw (top, first, count) refl

-- `pmm_init` on an empty buffer ends without a fault, for a memory map that leaves more than 2048 whole
-- pages behind the kernel's last one, and not more than the array of pages has room for in front of the
-- video memory: the state is well-formed and holds the initial lists of that many
-- pages, the first page is the one behind the kernel's end, and each page lies in a free block or in the
-- buffer, behind the kernel and in front of the end of the memory.
pub pmm_init-IsInitial :
    (kern_end p : ℕ) (es : List PmEntry) (s : Pmm)
    → s.single ≡ none
    → 2048 < page_count kern_end es
    → array_fits (page_count kern_end es) ≡ true
    → p < page_count kern_end es
    → Returns
        (λ _ t.
          IsInitial t (start_page kern_end * 4096) (page_count kern_end es)
          × (IsCovered (initial (page_count kern_end es)) p
              ⊎ (has p (initial (page_count kern_end es) 11) ≡ true))
          × (kern_end < page_no_to_addr t p)
          × (page_no_to_addr t p + 4096 ≤ greatest es))
        (pmm_init kern_end es s)
unfolding page_no_to_addr
pmm_init-IsInitial kern_end p es s e lo fits h =
    let small = greatest-small es in
    let (_, t, run, post) = pmm_page_init-IsInitial (with_pages kern_end es s) e lo fits in
    (
      tt,
      t,
      pmm_init-page_init kern_end es s lo ∙ run,
      (
        post,
        initial-IsCovered (page_count kern_end es) p lo h,
        omega (arith, post.1, small),
        omega (arith, post.1, small),
      ),
    )
