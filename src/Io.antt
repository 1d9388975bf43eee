-- ===== src/Io.antt =====
-- The devices of src/io.
pub mod Ocdev
pub mod Printf
pub mod Vga
