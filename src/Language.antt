-- ===== src/Language.antt =====
-- The checks of the language of tools/scripts/cpplint.py, and CheckLanguage, which runs some of them.
pub mod Strings
pub mod Printf
pub mod Arrays
pub mod Casts
pub mod References
pub mod Overrides
pub mod Constructs
pub mod General
