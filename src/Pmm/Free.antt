-- ===== src/Pmm/Free.antt =====
-- `free_from_pool` (kernel/mem/pmm.c): its loop, and what it leaves in a pool.
pub mod Loop
pub mod Return
pub mod RoundTrip
