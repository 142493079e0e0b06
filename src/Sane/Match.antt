-- ===== src/Sane/Match.antt =====
-- sane_find_matching_functions and sane_find_matching_options of src/scanbd/sane.c, and what they
-- make of a thread's tables.
pub mod Search
pub mod Tables
pub mod Lookup
pub mod Functions
pub mod Options
