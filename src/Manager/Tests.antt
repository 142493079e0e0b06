-- ===== src/Manager/Tests.antt =====
-- The manager mode of src/scanbd/scanbd.c on small inputs.
use scanbd.Prelude.{◌≡◌, refl, true, false, none, some, [], ◌∷◌, ◌++◌, lit, decimal, pos, arith}
use scanbd.Sane.Threads.{Daemon, returns, start_thread}
use scanbd.Dbus.Tests.{change, calls, calls-KeepsCalls, daemon, daemon-IsConsistent}
use scanbd.Manager.Numbers.{pid_line}
use scanbd.Manager.Options.{
  Settings, default_settings, on_m, on_t, on_a, read_options, manager_run, calls_trigger,
  runs_saned, fork_failed, wait_failed, saned_ended,
}
use scanbd.Manager.Options.Trigger.{read_options-calls_trigger}
use scanbd.Manager.Options.Saned.{stops, starts, manager_run-starts}
use scanbd.Manager.Delivery.{deliver_all, starts-stops}

read_options-calls_trigger_example :
    (s : Settings) × (read_options
        ((on_m, none) ∷ (on_t, some (decimal 0)) ∷ (on_a, some (decimal 12)) ∷ [])
        (default_settings (lit "scanbd.conf"))
      ≡ some s)
    × (s.manager_mode ≡ true)
    × (manager_run s none [] fork_failed ≡ (calls_trigger (pos 0) (pos 12) ∷ [], true))
read_options-calls_trigger_example =
    read_options-calls_trigger 0 12 (lit "scanbd.conf") [] none fork_failed (omega arith)
      (omega arith)

abbrev in_signal_mode : Settings
in_signal_mode = record (default_settings (lit "scanbd.conf")) {
  manager_mode = true;
  signal = true;
}

manager_run-starts_example :
    (manager_run in_signal_mode (some (some (pid_line 4711))) [] saned_ended
      ≡ (stops true 4711 ++ runs_saned ∷ starts true 4711, true))
    × (manager_run in_signal_mode (some (some (pid_line 4711))) [] fork_failed
        ≡ (stops true 4711, false))
    × (manager_run in_signal_mode (some (some (pid_line 4711))) [] wait_failed
        ≡ (stops true 4711 ++ runs_saned ∷ [], false))
manager_run-starts_example = manager_run-starts in_signal_mode 4710 [] refl (omega arith)

starts-stops_example :
    (v v' : Daemon) × (deliver_all calls change (stops false 4711) daemon ≡ returns v)
    × (v.sane_poll_threads ≡ none)
    × (deliver_all calls change (starts false 4711) v ≡ returns v')
    × (v'.sane_poll_threads ≡ some (start_thread (lit "test:0") ∷ []))
unfolding start_thread
starts-stops_example =
    starts-stops calls calls-KeepsCalls change false 4711 daemon (start_thread (lit "test:0")) []
      daemon-IsConsistent refl refl
