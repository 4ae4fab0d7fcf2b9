-- ===== src/Process.antt =====
-- The drivers of tools/scripts/cpplint.py: CheckStyle, ProcessLine and ProcessFileData.
pub mod Style
pub mod Line
pub mod File
pub mod Ends
pub mod Reported
pub mod Counted
