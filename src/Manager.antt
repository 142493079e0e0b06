-- ===== src/Manager.antt =====
-- The start of the daemon, its signal handlers and the manager mode (src/scanbd/scanbd.c).
pub mod Numbers
pub mod Options
pub mod Delivery
mod Tests
use scanbd.Prelude.{ℕ, ◌==◌, if◌then◌else◌, Bool, true, false}
use scanbd.Sane.Threads.{Daemon, Result, returns, and_then, stop_sane_threads, start_sane_threads}

abbrev pub sig_usr1_handler : Daemon → Result
sig_usr1_handler w = stop_sane_threads w

abbrev pub sig_usr2_handler : Daemon → Result
sig_usr2_handler w = start_sane_threads w

-- What sig_term_handler does with the threads before it exits: nothing in manager mode.
unfoldable pub sig_term_handler : Bool → Daemon → Result
sig_term_handler manager_mode w = if manager_mode then returns w else stop_sane_threads w

-- The end by sig_term_handler: the exit code is that of success unless the pid file, which there is
-- if the daemon does not run in the foreground, cannot be removed.
unfoldable pub term_succeeds : Bool → Bool → Bool → Bool
term_succeeds manager_mode foreground unlinks =
    if manager_mode then true else if foreground then true else unlinks
