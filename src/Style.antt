-- ===== src/Style.antt =====
-- The checks of style of tools/scripts/cpplint.py: spacing, braces, empty bodies, macros and CheckStyle,
-- which runs them on a line.
pub mod Texts
pub mod Width
pub mod Spacing
pub mod Operators
pub mod Parens
pub mod Initializers
pub mod Sections
pub mod Braces
pub mod Semicolons
pub mod Bodies
pub mod Macros
