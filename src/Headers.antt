-- ===== src/Headers.antt =====
-- Files and headers in tools/scripts/cpplint.py: paths, header guards, the checks of #include lines and of
-- what a file includes.
pub mod Paths
pub mod Info
pub mod Guards
pub mod Classify
pub mod Lines
pub mod Modules
pub mod Templates
pub mod Required
