-- ===== src/Glue.antt =====
-- cpp/: what the library does with its hooks in a Java process.
pub mod Threads
pub mod Unwind
pub mod SoTool
pub mod Dlopen
pub mod Offsets
