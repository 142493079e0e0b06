-- ===== src/Manager/Options.antt =====
-- The options of the command line and the manager mode (main of src/scanbd/scanbd.c). `none` is a
-- read through a NULL pointer.
pub mod Trigger
pub mod Saned
use scanbd.Prelude.{
  ℕ, zero, suc, ◌==◌, ◌>>=◌, if◌then◌else◌, Bool, true, false, Option, none, some, List, [], ◌∷◌,
  ◌++◌, CString, lit, str_eq, take, ℤ, pos, negsuc,
}
use scanbd.Manager.Numbers.{is_number, atoi, fgets}
use scanbd.Dbus.{method_acquire, method_release}

-- struct scanbdOptions, with `debug`, `debug_level` and the numbers of a trigger.
pub record Settings : Type 0 where
  pub manager_mode : Bool
  pub foreground : Bool
  pub signal : Bool
  pub config_file_name : CString
  pub debug : Bool
  pub debug_level : ℤ
  pub trigger_device : ℤ
  pub trigger_action : ℤ

-- Before the options are read; `conf` is SCANBD_CONF.
abbrev pub default_settings : CString → Settings
default_settings conf = record {
  manager_mode = false;
  foreground = false;
  signal = false;
  config_file_name = conf;
  debug = false;
  debug_level = pos 0;
  trigger_device = negsuc 0;
  trigger_action = negsuc 0;
}

-- What getopt_long gives.
pub data Flag : Type 0 where
  on_m on_s on_d on_f on_c on_t on_a on_other : Flag

unfoldable pub debug_option : Option CString → Settings → Settings
debug_option none s = record s { debug = true }
debug_option (some arg) s =
    if is_number (some arg)
    then record s { debug = true; debug_level = atoi arg }
    else record s { debug = true }

unfoldable pub trigger_option : CString → Settings → Settings
trigger_option arg s =
    if is_number (some arg) then record s { trigger_device = atoi arg; foreground = true } else s

unfoldable pub trigger_action_option : CString → Settings → Settings
trigger_action_option arg s =
    if is_number (some arg) then record s { trigger_action = atoi arg; foreground = true } else s

-- switch (c), with optarg.
unfoldable pub one_option : Flag → Option CString → Settings → Option Settings
one_option on_m optarg s = some (record s { manager_mode = true })
one_option on_s optarg s = some (record s { signal = true })
one_option on_d optarg s = some (debug_option optarg s)
one_option on_f optarg s = some (record s { foreground = true })
one_option on_c optarg s = do arg ← optarg; some (record s { config_file_name = arg })
one_option on_t optarg s = do arg ← optarg; some (trigger_option arg s)
one_option on_a optarg s = do arg ← optarg; some (trigger_action_option arg s)
one_option on_other optarg s = some s

unfoldable pub read_options : List (Flag × Option CString) → Settings → Option Settings
read_options [] s = some s
read_options ((flag, optarg) ∷ rest) s = do s' ← one_option flag optarg s; read_options rest s'

-- What the manager mode does to the running daemon, and that it runs saned.
pub data ManagerStep : Type 0 where
  calls_trigger : ℤ → ℤ → ManagerStep
  sends_signal : CString → ManagerStep
  calls_method : CString → ManagerStep
  kills : ℤ → ℕ → ManagerStep
  runs_saned : ManagerStep

-- fork and waitpid for saned.
pub data Child : Type 0 where
  fork_failed wait_failed saned_ended : Child

abbrev pub sigusr1 : ℕ
sigusr1 = 10

abbrev pub sigusr2 : ℕ
sigusr2 = 12

-- The file of the process: not opened, opened without a line, or with its text. `junk` is what the
-- uninitialised buffer holds.
unfoldable pub scanbd_pid : Option (Option CString) → CString → ℤ
scanbd_pid none junk = negsuc 0
scanbd_pid (some none) junk = atoi junk
scanbd_pid (some (some text)) junk = atoi (fgets 254 text)

-- SIGUSR1, if the file could be opened; SIGUSR2, if the number is greater than 0.
unfoldable pub stop_by_signal : Option (Option CString) → ℤ → List ManagerStep
stop_by_signal none pid = []
stop_by_signal (some content) pid = kills pid sigusr1 ∷ []

unfoldable pub start_by_signal : ℤ → List ManagerStep
start_by_signal (pos (suc n)) = kills (pos (suc n)) sigusr2 ∷ []
start_by_signal _ = []

abbrev pub before_saned : Bool → Option (Option CString) → ℤ → List ManagerStep
before_saned signal file pid =
    if signal
    then stop_by_signal file pid
    else sends_signal (lit "saned_begin") ∷ calls_method method_acquire ∷ []

abbrev pub after_saned : Bool → ℤ → List ManagerStep
after_saned signal pid =
    if signal
    then start_by_signal pid
    else calls_method method_release ∷ sends_signal (lit "saned_end") ∷ []

-- The steps in their order, and whether the exit code is that of success.
unfoldable pub saned_steps : Child → List ManagerStep → List ManagerStep → List ManagerStep × Bool
saned_steps fork_failed before after = (before, false)
saned_steps wait_failed before after = (before ++ runs_saned ∷ [], false)
saned_steps saned_ended before after = (before ++ runs_saned ∷ after, true)

abbrev pub run_saned :
    Settings → Option (Option CString) → CString → Child → List ManagerStep × Bool
run_saned s file junk child =
    let pid = scanbd_pid file junk in
    saned_steps child (before_saned s.signal file pid) (after_saned s.signal pid)

unfoldable pub trigger_or : ℤ → ℤ → List ManagerStep × Bool → List ManagerStep × Bool
trigger_or (pos device) (pos action) otherwise =
    (calls_trigger (pos device) (pos action) ∷ [], true)
trigger_or (pos device) (negsuc action) otherwise = otherwise
trigger_or (negsuc device) action otherwise = otherwise

abbrev pub manager_run :
    Settings → Option (Option CString) → CString → Child → List ManagerStep × Bool
manager_run s file junk child =
    trigger_or s.trigger_device s.trigger_action (run_saned s file junk child)
