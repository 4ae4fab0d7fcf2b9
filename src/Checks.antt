-- ===== src/Checks.antt =====
-- The checks of tools/scripts/cpplint.py on single lines and on whole files.
pub mod Files
pub mod Lines
pub mod Comments
pub mod Features
pub mod Lengths
