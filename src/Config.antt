-- ===== src/Config.antt =====
-- src/scanbd/config.c: the configuration, as far as it is computed with.
pub mod ScriptPath
mod Tests
