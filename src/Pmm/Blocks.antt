-- ===== src/Pmm/Blocks.antt =====
-- The three list operations of the page manager, `append_block`, `pop_block` and
-- `find_and_pop_block`, against the free lists that the links spell out.
mod Rep
pub mod Append
pub mod Pop
pub mod Find
pub use Rep.{head_of, IsRep, Kept, IsRep-heads, IsRep-single, IsRep-next}
