-- ===== src/Tests/PmmTests.antt =====
-- The page manager, kernel/modules/pmm/pmm.c, on a small state: two blocks of four pages, at pages 8
-- and 20, and a buffer with the single pages 40 and 41.
use bhos.Common.{
  ℕ, ◌+◌, ◌*◌, ◌^◌, ◌≤◌, ◌<◌, ◌≡◌, refl, true, none, some, [], ◌∷◌, ◌++◌, arith, update, Returns,
  fault, Fault,
}
use bhos.Chain.{Links}
use bhos.Pmm.{
  Pmm, Alloc, append_block, pop_block, find_and_pop_block, get_partner_page_no, page_no_to_addr,
  addr_to_page_no, c_to_uint32,
}
use bhos.Pmm.Free.{Lists}
use bhos.Pmm.Blocks.{IsRep, IsRep-heads, IsRep-single, Kept}
use bhos.Pmm.Blocks.Append.{append_block-IsRep}
use bhos.Pmm.Blocks.Pop.{pop_block-IsRep, popped, rest}
use bhos.Pmm.Blocks.Find.{find_and_pop_block-IsRep, found, remaining, removable}
use bhos.Pmm.Request.{class_of, pmm_alloc_pages}
use bhos.Pmm.Request.Class.{class_of-least}
use bhos.Pmm.Request.Pages.{pmm_alloc_pages-exact, pmm_alloc_pages-split}
use bhos.Pmm.Release.{pmm_free_page, free_helper}
use bhos.Pmm.Release.Merge.{free_lists, free_helper-refines}
use bhos.Pmm.Release.Page.{pmm_free_page-buddy}

abbrev pub blank : Pmm
blank = record {
  next = λ _. none;
  heads = λ _. none;
  single = none;
  page_start = 0x10_0000;
  max_page_no = 50;
  single_first = 40;
}

abbrev pub no_lists : Lists
no_lists c = []

blank-IsRep : IsRep blank no_lists
blank-IsRep = record {
  chains = λ c. ground arith;
  distinct = λ c. tt;
  disjoint = λ c d a ne i. refl;
  inside = λ c a i. ground arith;
}

abbrev pub links1 : Links
links1 = update (λ _. none) 8 (some 20)

abbrev pub links2 : Links
links2 = update links1 40 (some 41)

abbrev pub blocks : Pmm
blocks = record blank { next = links1; heads = update blank.heads 2 (some 8) }

abbrev pub block_lists : Lists
block_lists = update no_lists 2 (8 ∷ 20 ∷ [])

abbrev pub sample : Pmm
sample = record blocks { next = links2; single = some 40 }

abbrev pub lists : Lists
lists = update block_lists 11 (40 ∷ 41 ∷ [])

blocks-IsRep : IsRep blocks block_lists
blocks-IsRep =
    IsRep-heads blank no_lists blank-IsRep 2 links1 (some 8) (8 ∷ 20 ∷ []) (refl, (refl, refl))
      (refl, (refl, tt)) (λ a i. ground arith) (λ a d ne i. refl) (λ a d ne i. ground arith)
      (omega arith)

pub sample-IsRep : IsRep sample lists
sample-IsRep =
    IsRep-single blocks block_lists blocks-IsRep links2 (some 40) (40 ∷ 41 ∷ [])
      (refl, (refl, refl)) (refl, (refl, tt)) (λ a i. ground arith) (λ a d ne i. ground arith)
      (λ a d ne i. ground arith)

append_block-IsRep_example :
    Returns
      (λ _ t. IsRep t (update lists 3 (lists 3 ++ (24 ∷ []))) × Kept sample t)
      (append_block 24 3 sample)
append_block-IsRep_example =
    append_block-IsRep sample lists sample-IsRep 3 24 (omega arith) (omega arith)
      (λ d. ground arith)

pop_block-IsRep_example :
    Returns
      (λ q t. (q ≡ popped (lists 2)) × IsRep t (update lists 2 (rest (lists 2))) × Kept sample t)
      (pop_block 2 sample)
pop_block-IsRep_example = pop_block-IsRep sample lists sample-IsRep 2 (omega arith)

find_and_pop_block-IsRep_example :
    Returns
      (λ q t.
        (q ≡ found 20 (lists 2))
        × IsRep t (update lists 2 (remaining 20 (lists 2)))
        × Kept sample t)
      (find_and_pop_block 20 2 sample)
find_and_pop_block-IsRep_example =
    find_and_pop_block-IsRep sample lists sample-IsRep 2 20 (omega arith)

class_of-least_example : (class_of 5 ≤ 10) × (5 ≤ 2 ^ class_of 5) × (2 ^ class_of 5 < 2 * 5)
class_of-least_example = class_of-least 5 (omega arith) (omega arith)

pmm_alloc_pages-exact_example :
    Returns
      (λ a t.
        (a ≡ record { addr = page_no_to_addr sample 20; size = 2; state = 1 })
        × IsRep t (update lists 2 (8 ∷ []))
        × Kept sample t)
      (pmm_alloc_pages 3 sample)
unfolding class_of
pmm_alloc_pages-exact_example =
    pmm_alloc_pages-exact sample lists sample-IsRep 3 2 8 (20 ∷ []) (omega arith) (omega arith)
      (omega arith) refl (omega arith) refl

pmm_alloc_pages-split_example : pmm_alloc_pages 1 sample ≡ fault Fault.uninitialised
unfolding class_of
pmm_alloc_pages-split_example =
    pmm_alloc_pages-split sample lists sample-IsRep 1 2 8 (20 ∷ []) (omega arith) (omega arith)
      (omega arith) refl (omega arith) (omega arith) (λ e a b. ground arith) (omega arith)

-- Page 16 is the partner of page 20: the two make a block of eight pages.
free_helper-refines_example :
    Returns
      (λ _ t. IsRep t (update (update lists 2 (8 ∷ [])) 3 (16 ∷ [])) × Kept sample t)
      (free_helper 12 16 2 sample)
unfolding free_lists removable remaining get_partner_page_no c_to_uint32
free_helper-refines_example =
    free_helper-refines 9 12 sample lists 16 2 sample-IsRep (λ d. ground arith) (omega arith)
      (omega arith) refl (omega arith)

abbrev pub block_at : ℕ → ℕ → Alloc
block_at p size = record { addr = 0x10_0000 + p * 4096; size = size; state = 1 }

pmm_free_page-buddy_example :
    Returns
      (λ v t. (v ≡ true) × IsRep t (update (update lists 2 (8 ∷ [])) 3 (16 ∷ [])) × Kept sample t)
      (pmm_free_page (block_at 16 2) sample)
unfolding free_lists removable remaining get_partner_page_no c_to_uint32 addr_to_page_no
pmm_free_page-buddy_example =
    pmm_free_page-buddy sample lists sample-IsRep (block_at 16 2) 16 refl (omega arith)
      (λ d. ground arith) (update (update lists 2 (8 ∷ [])) 3 (16 ∷ [])) (omega arith) (omega arith)
      (omega arith) refl
