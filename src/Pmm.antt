-- ===== src/Pmm.antt =====
-- The physical page manager, kernel/modules/pmm/pmm.c and include/pmm.h.
--
-- `page_array[i]` is the number `i`: `pmm_page_init` stores `i` in its `page_no` field and nothing
-- writes that field again, so a `pm_page_t *` is a page number and NULL is `none`. The field `state`
-- of a page is written once and never read. A block class `page_c_t` is a number, `_1 = 0` to
-- `_1024 = 10` and `_erro = 11`. A walk along `next` gets `pmm_max_page_no` rounds, which is enough
-- for any list of distinct pages. The array is a store of its own: `pmm_page_init` faults where its addresses
-- would leave the memory that is there for it.
pub mod Free
pub mod Blocks
pub mod Request
pub mod Release
pub mod Setup
use bhos.Common.{
  ℕ, ◌+◌, ◌*◌, ◌%◌, ◌^◌, Bool, true, false, Option, none, some, leb, ◌==◌, if◌then◌else◌, u32,
  sub32, shr, update, ok, fault, Fault, Cmd, pure, ◌>>=◌, ◌&&◌,
}
use bhos.Chain.{Links, last_node}
use bhos.Chain.Remove.{before_last, find_before, before, ended}

abbrev pub erro_pop_block : ℕ
erro_pop_block = 0xFFFF_FFFF

-- `_erro` of page_c_t
abbrev pub class_erro : ℕ
class_erro = 11

-- The static variables of pmm.c; `heads c` is the field of MULTI_LINK for class `c`.
pub record Pmm : Type 0 where
  pub next : Links
  pub heads : ℕ → Option ℕ
  pub single : Option ℕ
  pub page_start : ℕ
  pub max_page_no : ℕ
  pub single_first : ℕ

pub record Alloc : Type 0 where
  pub addr : ℕ
  pub size : ℕ
  pub state : ℕ

unfoldable pub page_no_to_addr : Pmm → ℕ → ℕ
page_no_to_addr s page_no = u32 (u32 (page_no * 2 ^ 12) + s.page_start)

unfoldable pub addr_to_page_no : Pmm → ℕ → ℕ
addr_to_page_no s addr = shr (sub32 addr s.page_start) 12

-- 1 << ph
unfoldable pub c_to_uint32 : ℕ → ℕ
c_to_uint32 ph = u32 (2 ^ ph)

unfoldable pub get_partner_page_no : ℕ → ℕ → ℕ
unfolding c_to_uint32
get_partner_page_no page_no type =
    let v1 = c_to_uint32 type in
    let v2 = u32 (2 * v1) in
    if sub32 page_no v1 % v2 == 0 then sub32 page_no v1 else u32 (page_no + v1)

-- The walk to the last page behind `header`, and the link to the new one.
unfoldable pub link_tail : ℕ → ℕ → Cmd Pmm (Unit {0})
link_tail page_no header s = elim (last_node s.max_page_no s.next header) [
  | none ↦ fault Fault.endless
  | some probe ↦ ok (tt, record s { next = update s.next probe (some page_no) })
]

-- For `_erro`, and for a number that is no class, no case sets `header` before it is read.
unfoldable pub append_block : ℕ → ℕ → Cmd Pmm (Unit {0})
unfolding link_tail
append_block page_no c s =
    let s1 = record s { next = update s.next page_no none } in
    if leb c 10
    then elim (s1.heads c) [
      | none ↦ ok (tt, record s1 { heads = update s1.heads c (some page_no) })
      | some header ↦ link_tail page_no header s1
    ]
    else fault Fault.uninitialised

-- The end of `pop_block`, for a list of two pages or more.
unfoldable pub pop_tail : ℕ → Cmd Pmm ℕ
pop_tail header s = elim (before_last s.max_page_no s.next header) [
  | none ↦ fault Fault.endless
  | some probe ↦ elim (s.next probe) [
    | none ↦ fault Fault.null_pointer
    | some page_no ↦ ok (page_no, record s { next = update s.next probe none })
  ]
]

unfoldable pub pop_block : ℕ → Cmd Pmm ℕ
unfolding pop_tail
pop_block c s =
    if leb c 10
    then elim (s.heads c) [
      | none ↦ ok (erro_pop_block, s)
      | some header ↦ elim (s.next header) [
        | none ↦ ok (header, record s { heads = update s.heads c none })
        | some _ ↦ pop_tail header s
      ]
    ]
    else if c == class_erro
    then ok (erro_pop_block, s)
    else fault Fault.uninitialised

-- The loop of `find_and_pop_block` and what follows it.
unfoldable pub find_walk : ℕ → ℕ → ℕ → Cmd Pmm ℕ
unfolding pop_block
find_walk target ph header s = elim (find_before s.max_page_no s.next header target) [
  | none ↦ fault Fault.endless
  | some (before probe) ↦ elim (s.next probe) [
    | none ↦ fault Fault.null_pointer
    | some q ↦ ok (target, record s { next = update s.next probe (s.next q) })
  ]
  | some (ended probe) ↦
      if probe == target then (pop_block ph >>= λ _. pure target) s else ok (erro_pop_block, s)
]

is_none : Option ℕ → Bool
is_none none = true
is_none (some _) = false

unfoldable pub find_and_pop_block : ℕ → ℕ → Cmd Pmm ℕ
unfolding find_walk is_none
find_and_pop_block target ph s =
    if leb ph 10
    then elim (s.heads ph) [
      | none ↦ ok (erro_pop_block, s)
      | some header ↦
          if is_none (s.next header) && (header == target)
          then (pop_block ph >>= λ _. pure target) s
          else find_walk target ph header s
    ]
    else if ph == class_erro
    then ok (erro_pop_block, s)
    else fault Fault.uninitialised
