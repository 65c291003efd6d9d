-- ===== src/Intrusive.antt =====
-- The intrusive containers, whose links stand in the elements.
pub mod Heap
pub mod Ring
