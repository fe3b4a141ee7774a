-- ===== src/StrMatch.antt =====
-- c-study/str_match: searching a text for a pattern.
pub mod Kmp
