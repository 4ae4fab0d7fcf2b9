-- ===== src/Nesting.antt =====
-- The nesting of blocks in a C++ file: the class NestingState of tools/scripts/cpplint.py and the classes
-- of blocks that its stack holds.
pub mod Blocks
pub mod Ends
pub mod Preprocessor
pub mod Template
pub mod Update
pub mod Queries
