-- ===== src/Pmm/Release.antt =====
-- Release in kernel/modules/pmm/pmm.c: `free_helper` and `pmm_free_page`. Each call of `free_helper`
-- by itself is for the next class, so it gets 12 rounds, one for each value of page_c_t.
-- The line that each call prints, under the lock of `printk`, is left out.
pub mod Partner
pub mod Merge
pub mod Page
use bhos.Common.{
  ℕ, zero, suc, ◌+◌, Bool, true, false, none, some, ltb, ◌==◌, if◌then◌else◌, update, ok, fault,
  Fault, Cmd, pure, ◌>>=◌, ◌>>◌,
}
use bhos.Chain.{last_node}
use bhos.Pmm.{
  Pmm, Alloc, erro_pop_block, addr_to_page_no, get_partner_page_no, append_block,
  find_and_pop_block,
}

unfoldable pub free_helper : ℕ → ℕ → ℕ → Cmd Pmm (Unit {0})
free_helper zero page_no size = λ _. fault Fault.endless
free_helper (suc fuel) page_no size =
    let partner = get_partner_page_no page_no size in
    find_and_pop_block partner size >>= λ q. elim (q == erro_pop_block) [
      | false ↦ free_helper fuel (if ltb partner page_no then partner else page_no) (size + 1)
      | true ↦ append_block page_no size
    ]

-- A page of the single-page buffer goes to its end; its own link is left as it is.
unfoldable pub free_single : ℕ → Cmd Pmm (Unit {0})
free_single page_no s = elim s.single [
  | none ↦ ok (tt, record s { single = some page_no })
  | some header ↦ elim (last_node s.max_page_no s.next header) [
    | none ↦ fault Fault.endless
    | some probe ↦ ok (tt, record s { next = update s.next probe (some page_no) })
  ]
]

unfoldable pub pmm_free_page : Alloc → Cmd Pmm Bool
unfolding free_single
pmm_free_page block s =
    let page_no = addr_to_page_no s block.addr in
    if ltb page_no s.max_page_no
    then (if ltb page_no s.single_first
        then (free_helper 12 page_no block.size >> pure true) s
        else (free_single page_no >> pure true) s)
    else ok (false, s)
