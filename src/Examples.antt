-- ===== src/Examples.antt =====
-- The programs of examples/ that do more than call the library.
pub mod Csv
pub mod Rename
pub mod Programs
mod Tests
