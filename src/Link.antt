-- ===== src/Link.antt =====
-- The linked list of libs/utils/list.c and include/utils.h, for a list without a lock: then
-- `lock_init_flag` is False, and `_lock_acquire` and `_lock_release` do nothing.
--
-- A node is the number that is its address. Walks along the list get `count` rounds.
pub mod Change
pub mod Locked
use bhos.Common.{
  ℕ, zero, suc, Bool, true, false, Option, none, some, ◌==◌, if◌then◌else◌, update, ok, fault,
  Fault, Outcome, Cmd,
}
use bhos.Chain.{Links, last_node}

pub record Link : Type 0 where
  pub head : Option ℕ
  pub next : Links
  pub node_data : ℕ → ℕ
  pub count : ℕ

unfoldable pub remove_next_node : ℕ → Cmd Link Bool
remove_next_node node link = elim (link.next node) [
  | none ↦ ok (false, link)
  | some _ ↦ ok (true, record link { next = update link.next node none })
]

-- The tail is found and the new node linked to it; the link of the new node is left as it is.
unfoldable pub link_add_tail : ℕ → Cmd Link (Unit {0})
link_add_tail node link = elim link.head [
  | none ↦ ok (tt, record link { head = some node })
  | some header ↦ elim (last_node link.count link.next header) [
    | none ↦ fault Fault.endless
    | some probe ↦ ok (tt, record link { next = update link.next probe (some node) })
  ]
]

unfoldable pub link_add_head : ℕ → Link → Link
link_add_head node link = record link { head = some node; next = update link.next node link.head }

-- for(; probe->next != NULL; probe = probe->next) up to a node whose successor passes the test; `none`
-- for the end of the rounds, `some none` for the end of the list.
unfoldable pub find_previous : (ℕ → Bool) → ℕ → Links → ℕ → Option (Option ℕ)
find_previous test zero nx probe = none
find_previous test (suc fuel) nx probe = elim (nx probe) [
  | none ↦ some none
  | some q ↦
      let further = find_previous test fuel nx q in if test q then some (some probe) else further
]

-- The body that `link_remove_by_data` and `link_remove_by_node` share.
unfoldable pub remove_where : (ℕ → Bool) → Cmd Link Bool
unfolding remove_next_node
remove_where test link = elim link.head [
  | none ↦ ok (false, link)
  | some header ↦ elim (find_previous test link.count link.next header) [
    | none ↦ fault Fault.endless
    | some none ↦ ok (false, link)
    | some (some probe) ↦ remove_next_node probe link
  ]
]

abbrev pub link_remove_by_data : ℕ → Cmd Link Bool
link_remove_by_data target link = remove_where (λ q. link.node_data q == target) link

abbrev pub link_remove_by_node : ℕ → Cmd Link Bool
link_remove_by_node node = remove_where (λ q. q == node)

-- The loop of `link_find_node_by_data`, which returns the data it looks for.
unfoldable pub search : ℕ → ℕ → Link → Option ℕ → Outcome (Option ℕ)
search target zero link probe = fault Fault.endless
search target (suc fuel) link none = ok none
search target (suc fuel) link (some probe) =
    let further = search target fuel link (link.next probe) in
    if link.node_data probe == target then ok (some target) else further

unfoldable pub link_find_node_by_data : ℕ → Link → Outcome (Option ℕ)
unfolding search
link_find_node_by_data target link = elim link.head [
  | none ↦ ok none
  | some header ↦ search target link.count link (some header)
]
