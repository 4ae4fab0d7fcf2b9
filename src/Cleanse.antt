-- ===== src/Cleanse.antt =====
-- The preparation of a file's lines in tools/scripts/cpplint.py: raw strings, comments and the insides of
-- strings are taken out before the checks look at a line.
pub mod RawStrings
pub mod Multiline
pub mod Comments
pub mod Strings
pub mod Lines
