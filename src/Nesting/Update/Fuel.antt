-- ===== src/Nesting/Update/Fuel.antt =====
-- The loop over the braces of a line in Update of tools/scripts/cpplint.py ends within its fuel.
