-- ===== src/Chain.antt =====
-- Singly linked nodes: `probe = probe->next` walks, and the lists that the links spell out.
-- A node is a number and NULL is `none`; the walks over page lists, wait queues and the list
-- library are instances of the functions below.
mod Walk
pub mod Append
pub mod Remove
pub use Walk.{Links, Chain, last_of, Chain-frame, Chain-update}
pub use Walk.{last_of-mem, last_node-last_of}
unfoldable pub use Walk.{last_node}
