-- ===== src/Sane/Value.antt =====
-- sane_option_value_init, sane_option_value_free, get_sane_option_value and the string hash of
-- src/scanbd/sane.c.
pub mod Hash
pub mod Read
