-- ===== src/Sane/Poll.antt =====
-- sane_poll of src/scanbd/sane.c, the body of a device's polling thread: the check of one option,
-- the environment of its script, the action, and how other threads take part.
pub mod Check
pub mod Environment
pub mod Setup
pub mod Loop
