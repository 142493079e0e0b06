-- ===== src/Manager/Delivery.antt =====
-- What the steps of the manager mode of src/scanbd/scanbd.c do in the running daemon, by the signal
-- handlers of scanbd.c and the methods of src/scanbd/dbus.c.
use scanbd.Prelude.{
  ℕ, ◌≡◌, refl, ap, subst, ◌==◌, if◌then◌else◌, Bool, true, false, none, some, List, [], ◌∷◌, map,
  length, arith,
}
use scanbd.Sane.Types.{Thread}
use scanbd.Sane.Threads.{
  Daemon, Result, returns, and_then, devices_of, start_thread, stop_list, start_all,
  start_sane_threads,
}
use scanbd.Sane.Threads.Lists.{IsConsistent, Matches, idle, started}
use scanbd.Sane.Threads.Fresh.{stop_idle}
use scanbd.Dbus.{Change, Messages, message_func, dbus_call_method}
use scanbd.Dbus.Calls.{KeepsCalls, release-acquire}
use scanbd.Manager.{sig_usr1_handler, sig_usr2_handler}
use scanbd.Manager.Options.{
  ManagerStep, calls_trigger, sends_signal, calls_method, kills, runs_saned, sigusr1, sigusr2,
}
use scanbd.Manager.Options.Saned.{stops, starts}

module _ {Msg : Type 0} (dbus : Messages Msg) (ch : Change) where
  -- One step, where the signals go to the daemon; a trigger is taken up by a thread of its own.
  unfoldable pub deliver : ManagerStep → Daemon → Result
  deliver (calls_trigger device action) w = returns w
  deliver (sends_signal name) w = returns w
  deliver (calls_method method) w = (message_func dbus (dbus_call_method dbus method) ch w).result
  deliver (kills pid signal) w =
      if signal == sigusr1
      then sig_usr1_handler w
      else if signal == sigusr2
      then sig_usr2_handler w
      else returns w
  deliver runs_saned w = returns w

  unfoldable pub deliver_all : List ManagerStep → Daemon → Result
  deliver_all [] w = returns w
  deliver_all (step ∷ steps) w = and_then (deliver step w) (λ v. deliver_all steps v)

module _ {Msg : Type 0} (dbus : Messages Msg) (keeps : KeepsCalls dbus) (ch : Change) where
  -- While no action is active in the daemon, the steps of the manager mode before saned leave it
  -- without a polling thread, and those after saned start one new thread for each of its devices, in
  -- their order, in signal mode and else: saned has the devices to itself. There is at least one
  -- thread before, as many as devices, and libdbus keeps the name of a call.
  pub starts-stops :
      (signal : Bool) (pid : ℕ) (w : Daemon) (st : Thread) (ts : List Thread)
      → IsConsistent w
      → w.sane_poll_threads ≡ some (st ∷ ts)
      → idle (st ∷ ts) ≡ true
      → (v v' : Daemon) × (deliver_all dbus ch (stops signal pid) w ≡ returns v)
        × (v.sane_poll_threads ≡ none)
        × (deliver_all dbus ch (starts signal pid) v ≡ returns v')
        × (v'.sane_poll_threads ≡ some (map start_thread (devices_of w.sane_device_list)))
  unfolding deliver_all deliver start_sane_threads stop_list start_all
  starts-stops true pid w st ts c e quiet =
      let running : length (st ∷ ts) ≡ w.num_devices =
        subst (λ o. Matches w.num_devices o) e c.threads in
      let some_device : (w.num_devices == 0) ≡ false = ground (arith, running) in
      (
        record w { sane_poll_threads = none },
        record w { sane_poll_threads = some (map start_thread (devices_of w.sane_device_list)) },
        ap (λ r. and_then r (λ v. returns v)) (stop_idle w (st ∷ ts) e running quiet),
        refl,
        rw (some_device, started w c) refl,
        refl,
      )
  starts-stops false pid w st ts c e quiet =
      let (v, v', stopped, gone, restarted, there) =
        release-acquire dbus keeps ch w st ts c e quiet in
      (
        v,
        v',
        ap (λ r. and_then r (λ v. returns v)) stopped,
        gone,
        ap (λ r. and_then r (λ v. returns v)) restarted,
        there,
      )
