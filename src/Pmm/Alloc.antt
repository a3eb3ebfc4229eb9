-- ===== src/Pmm/Alloc.antt =====
-- `alloc_from_pool`: the search for a block, the splitting, and what is free afterwards.
pub mod Search
pub mod Split
pub mod Take
