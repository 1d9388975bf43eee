-- ===== src/Loader.antt =====
-- The 32-bit loader, src/loader.
pub mod Div
pub mod Paging
pub mod Elf
pub mod Boot
