-- ===== src/Manager/Options/Saned.antt =====
-- The manager mode of src/scanbd/scanbd.c round a run of saned.
use scanbd.Prelude.{
  ℕ, suc, ◌<◌, ◌≡◌, refl, if◌then◌else◌, Bool, true, false, some, List, [], ◌∷◌, ◌++◌, CString, lit,
  pos, negsuc,
}
use scanbd.Dbus.{method_acquire, method_release}
use scanbd.Manager.Numbers.{pid_line, pid_line-atoi}
use scanbd.Manager.Options.{
  Settings, ManagerStep, sends_signal, calls_method, kills, runs_saned, fork_failed, wait_failed,
  saned_ended, sigusr1, sigusr2, scanbd_pid, stop_by_signal, start_by_signal, before_saned,
  after_saned, saned_steps, trigger_or, manager_run,
}

-- How the polling threads of the daemon `pid` are stopped, and started again.
abbrev pub stops : Bool → ℕ → List ManagerStep
stops signal pid =
    if signal
    then kills (pos pid) sigusr1 ∷ []
    else sends_signal (lit "saned_begin") ∷ calls_method method_acquire ∷ []

abbrev pub starts : Bool → ℕ → List ManagerStep
starts signal pid =
    if signal
    then kills (pos pid) sigusr2 ∷ []
    else calls_method method_release ∷ sends_signal (lit "saned_end") ∷ []

steps_of :
    (signal : Bool) (n : ℕ) (junk : CString)
    → suc n < 2147483648
    → (before_saned signal
          (some (some (pid_line (suc n))))
          (scanbd_pid (some (some (pid_line (suc n)))) junk)
        ≡ stops signal (suc n))
      × (after_saned signal (scanbd_pid (some (some (pid_line (suc n)))) junk)
          ≡ starts signal (suc n))
unfolding scanbd_pid stop_by_signal start_by_signal
steps_of true n junk h = (rw (pid_line-atoi (suc n) h) refl, rw (pid_line-atoi (suc n) h) refl)
steps_of false n junk h = (refl, refl)

-- Without a trigger, the manager mode stops the polling threads of the daemon whose number is in the
-- pid file, runs saned and starts the threads of the same daemon again, by SIGUSR1 and SIGUSR2 in
-- signal mode and by the calls `aquire` and `release` else; but when the fork fails, or the wait for
-- saned, it exits with a failure and does not start them again. The daemon wrote the file.
pub manager_run-starts :
    (s : Settings) (n : ℕ) (junk : CString)
    → s.trigger_device ≡ negsuc 0
    → suc n < 2147483648
    → (manager_run s (some (some (pid_line (suc n)))) junk saned_ended
        ≡ (stops s.signal (suc n) ++ runs_saned ∷ starts s.signal (suc n), true))
      × (manager_run s (some (some (pid_line (suc n)))) junk fork_failed
          ≡ (stops s.signal (suc n), false))
      × (manager_run s (some (some (pid_line (suc n)))) junk wait_failed
          ≡ (stops s.signal (suc n) ++ runs_saned ∷ [], false))
unfolding trigger_or saned_steps
manager_run-starts s n junk e h =
    let (before, after) = steps_of s.signal n junk h in
    (rw (e, before, after) refl, rw (e, before) refl, rw (e, before) refl)
