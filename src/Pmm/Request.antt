-- ===== src/Pmm/Request.antt =====
-- Allocation in kernel/modules/pmm/pmm.c: `pmm_alloc_pages`, `pmm_alloc_one_page` and the loops that
-- they run. The loop over the bits of `page_count` gets 33 rounds, one more than a word has bits, and
-- the loops over the block classes get 12.
pub mod Class
pub mod Pages
pub mod Single
use bhos.Common.{
  ℕ, zero, suc, ◌+◌, ◌-◌, ◌/◌, ◌^◌, true, false, ◌||◌, none, some, ltb, ◌==◌, if◌then◌else◌, u32,
  sub32, update, ok, fault, Fault, Cmd, pure, ◌>>=◌, ◌>>◌,
}
use bhos.Chain.Remove.{before_last}
use bhos.Pmm.{
  Pmm, Alloc, erro_pop_block, class_erro, page_no_to_addr, c_to_uint32, append_block, pop_block,
}

-- for(; probe != 0; counter1++, probe = probe >> 1);
unfoldable pub bit_count : ℕ → ℕ → ℕ → ℕ
bit_count zero probe counter1 = counter1
bit_count (suc fuel) probe counter1 = elim (probe == 0) [
  | true ↦ counter1
  | false ↦ bit_count fuel (probe / 2) (counter1 + 1)
]

-- The class of the smallest block that holds `page_count` pages.
unfoldable pub class_of : ℕ → ℕ
unfolding bit_count
class_of page_count =
    let counter1 = bit_count 33 page_count 0 in
    if page_count == u32 (2 ^ (counter1 - 1)) then counter1 - 1 else counter1

-- for(; ph < _erro; ph++): the first class with a block, and the block, or the error number.
unfoldable pub find_class : ℕ → ℕ → Cmd Pmm (ℕ × ℕ)
find_class zero ph = λ _. fault Fault.endless
find_class (suc fuel) ph = elim (ltb ph class_erro) [
  | true ↦ pop_block ph >>= λ page_no. elim (page_no == erro_pop_block) [
    | false ↦ pure (ph, page_no)
    | true ↦ find_class fuel (ph + 1)
  ]
  | false ↦ pure (ph, erro_pop_block)
]

-- The second argument of the call of `append_block` is `pop_page_no - 1`, as in the source.
unfoldable pub alloc_helper : ℕ → ℕ → ℕ → ℕ → Cmd Pmm ℕ
alloc_helper zero target_ph pop_ph pop_page_no = λ _. fault Fault.endless
alloc_helper (suc fuel) target_ph pop_ph pop_page_no = elim (pop_ph == target_ph) [
  | true ↦ pure pop_page_no
  | false ↦
      append_block (u32 (pop_page_no + c_to_uint32 pop_ph / 2)) (sub32 pop_page_no 1)
      >> alloc_helper fuel target_ph (sub32 pop_ph 1) pop_page_no
]

abbrev pub failed : Alloc
failed = record { addr = 0; size = class_erro; state = 0 }

unfoldable pub finish_alloc : ℕ → ℕ × ℕ → Cmd Pmm Alloc
finish_alloc origin_ph (ph, pop_page_no) =
    if pop_page_no == erro_pop_block
    then pure failed
    else alloc_helper 12 origin_ph ph pop_page_no >>= λ target s.
        ok (record { addr = page_no_to_addr s target; size = origin_ph; state = 1 }, s)

unfoldable pub pmm_alloc_pages : ℕ → Cmd Pmm Alloc
pmm_alloc_pages page_count =
    if ltb 1024 page_count || page_count == 0
    then pure failed
    else find_class 12 (class_of page_count) >>= finish_alloc (class_of page_count)

abbrev pub one_page : Pmm → ℕ → Alloc
one_page s page_no = record { addr = page_no_to_addr s page_no; size = 0; state = 1 }

-- The last page of a buffer of two pages or more.
unfoldable pub alloc_tail : ℕ → Cmd Pmm Alloc
alloc_tail header s = elim (before_last s.max_page_no s.next header) [
  | none ↦ fault Fault.endless
  | some probe ↦ elim (s.next probe) [
    | none ↦ fault Fault.null_pointer
    | some page_no ↦ ok (one_page s page_no, record s { next = update s.next probe none })
  ]
]

unfoldable pub pmm_alloc_one_page : Cmd Pmm Alloc
unfolding alloc_tail
pmm_alloc_one_page s = elim s.single [
  | none ↦ pmm_alloc_pages 1 s
  | some header ↦ elim (s.next header) [
    | none ↦ ok (one_page s header, record s { single = none })
    | some _ ↦ alloc_tail header s
  ]
]
