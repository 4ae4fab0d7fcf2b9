-- ===== src/Expression.antt =====
-- The matching of brackets over several lines: FindEndOfExpressionInLine, CloseExpression and their mirror
-- images, and _GetTextInside, of tools/scripts/cpplint.py.
pub mod Forward
pub mod Backward
pub mod Inside
