-- ===== src/Data.antt =====
-- The containers of src/data.
pub mod Heap
pub mod Queue
