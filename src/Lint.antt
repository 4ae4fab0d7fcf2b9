-- ===== src/Lint.antt =====
-- What all checks of tools/scripts/cpplint.py share: the reports, the store of NOLINT comments, the
-- module-wide state and the error handler `Error`.
pub mod Categories
pub mod Report
pub mod Suppress
pub mod State
pub mod Handler
pub mod Effects
