-- ===== src/Naming.antt =====
-- The checks of tools/scripts/cpplint.py on the names of this project: JuniperCheck*.
pub mod Names
pub mod Types
pub mod Functions
pub mod Variables
pub mod Underscores
pub mod Accepted
