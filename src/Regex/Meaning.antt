-- ===== src/Regex/Meaning.antt =====
-- What it means for a pattern to match from one place to another, with no order of search in it, and
-- that the matcher of `Regex` finds a match exactly when there is one.
pub mod Relation
pub mod Decides
pub mod Find
pub mod Advance
