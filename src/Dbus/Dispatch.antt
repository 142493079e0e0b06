-- ===== src/Dbus/Dispatch.antt =====
-- What becomes of the polling threads of src/scanbd/sane.c by the messages of src/scanbd/dbus.c and
-- the devices of src/scanbd/udev.c.
use scanbd.Prelude.{
  ◌≡◌, if◌then◌else◌, Bool, true, false, Option, none, some, List, [], CString, lit, str_eq,
}
use scanbd.Sane.Threads.{
  Daemon, Result, returns, and_then, get_sane_devices, stop_sane_threads, start_sane_threads,
}
use scanbd.Sane.Threads.Lists.{IsConsistent}
use scanbd.Sane.Threads.Safe.{
  Holds, IsStopped, Holds-weaken, and_then-Holds, stop-IsStopped, start-IsConsistent,
  devices-IsConsistent,
}
use scanbd.Dbus.{
  Change, insert_hook, remove_hook, after_hook, Messages, scanbd_interface, method_acquire,
  method_release, method_trigger, hal_interface, signal_dev_added, signal_dev_removed,
  dbus_method_trigger, dbus_signal_device_added, dbus_signal_device_removed, Reaction, reaction,
  message_func, udev_action, udev_device,
}

if_Holds :
    (P : Daemon → Type 0) (b : Bool) (r r' : Result)
    → Holds P r
    → Holds P r'
    → Holds P (if b then r else r')
if_Holds P true r r' h h' = h
if_Holds P false r r' h h' = h'

-- The hooks of a change pass their assertions.
pub record HooksRun (ch : Change) : Type 0 where
  pub inserted : (run : Option (CString × List CString)) × (insert_hook ch ≡ some run)
  pub removed : (run : Option (CString × List CString)) × (remove_hook ch ≡ some run)

hooked-IsStopped :
    (hook : Option (Option (CString × List CString)))
    → ((run : Option (CString × List CString)) × (hook ≡ some run))
    → (w : Daemon) → IsConsistent w
    → Holds IsStopped (and_then (stop_sane_threads w) (after_hook hook))
unfolding after_hook
hooked-IsStopped hook (run, e) w c =
    and_then-Holds IsStopped IsStopped (stop_sane_threads w) (after_hook hook) (λ v h. rw e h)
      (stop-IsStopped w c)

renewed-IsConsistent :
    (found : Option (List CString)) (r : Result)
    → Holds IsStopped r
    → Holds IsConsistent (and_then r (λ v. start_sane_threads (get_sane_devices found v)))
renewed-IsConsistent found r h =
    and_then-Holds IsStopped IsConsistent r (λ v. start_sane_threads (get_sane_devices found v))
      (λ v stopped.
        start-IsConsistent (get_sane_devices found v)
          (devices-IsConsistent found v stopped.none_left))
      h

added-IsConsistent :
    (ch : Change) (w : Daemon)
    → HooksRun ch
    → IsConsistent w
    → Holds IsConsistent (dbus_signal_device_added ch w)
unfolding dbus_signal_device_added
added-IsConsistent ch w run c =
    renewed-IsConsistent ch.found (and_then (stop_sane_threads w) (after_hook (insert_hook ch)))
      (hooked-IsStopped (insert_hook ch) run.inserted w c)

removed-IsConsistent :
    (ch : Change) (w : Daemon)
    → HooksRun ch
    → IsConsistent w
    → Holds IsConsistent (dbus_signal_device_removed ch w)
unfolding dbus_signal_device_removed
removed-IsConsistent ch w run c =
    renewed-IsConsistent ch.found (and_then (stop_sane_threads w) (after_hook (remove_hook ch)))
      (hooked-IsStopped (remove_hook ch) run.removed w c)

stop-IsConsistent : (w : Daemon) → IsConsistent w → Holds IsConsistent (stop_sane_threads w)
stop-IsConsistent w c =
    Holds-weaken IsStopped IsConsistent (stop_sane_threads w) (λ v h. h.consistent)
      (stop-IsStopped w c)

udev_device-IsConsistent :
    (devtype action : Option CString) (ch : Change) (w : Daemon)
    → HooksRun ch
    → IsConsistent w
    → Holds IsConsistent (udev_device devtype action ch w)
unfolding udev_device udev_action
udev_device-IsConsistent none action ch w run c = c
udev_device-IsConsistent (some devtype) none ch w run c =
    if_Holds IsConsistent (str_eq devtype (lit "usb_device")) (returns w) (returns w) c c
udev_device-IsConsistent (some devtype) (some action) ch w run c =
    if_Holds IsConsistent (str_eq devtype (lit "usb_device")) _ (returns w)
      (and_then-Holds IsConsistent IsConsistent _ _
        (λ v h.
          if_Holds IsConsistent (str_eq action (lit "remove")) (dbus_signal_device_removed ch v)
            (returns v) (removed-IsConsistent ch v run h) h)
        (if_Holds IsConsistent (str_eq action (lit "add")) (dbus_signal_device_added ch w)
          (returns w) (added-IsConsistent ch w run c) c))
      c

module _ {Msg : Type 0} (dbus : Messages Msg) where
  result_if :
      (b : Bool) (r r' : Reaction)
      → Holds IsConsistent r.result
      → Holds IsConsistent r'.result
      → Holds IsConsistent (if b then r else r').result
  result_if true r r' h h' = h
  result_if false r r' h h' = h'

  -- From a state with as many devices as in the list, and as many threads if threads run, no message
  -- and no device that udev reports makes the daemon leave an array: the call waits for an action to
  -- end or returns such a state. The hooks pass their assertions.
  pub message_func-IsConsistent :
      (message : Msg) (devtype action : Option CString) (ch : Change) (w : Daemon)
      → HooksRun ch
      → IsConsistent w
      → Holds IsConsistent (message_func dbus message ch w).result
        × Holds IsConsistent (udev_device devtype action ch w)
  unfolding message_func
  message_func-IsConsistent message devtype action ch w run c = (
    result_if (dbus.is_method_call message scanbd_interface method_acquire)
        (reaction (stop_sane_threads w) []) _ (stop-IsConsistent w c)
        (result_if (dbus.is_method_call message scanbd_interface method_release)
          (reaction (start_sane_threads w) []) _ (start-IsConsistent w c)
          (result_if (dbus.is_method_call message scanbd_interface method_trigger)
            (reaction (returns w) (dbus_method_trigger (dbus.arguments message))) _ c
            (result_if (dbus.is_signal message hal_interface signal_dev_added)
              (reaction (dbus_signal_device_added ch w) []) _ (added-IsConsistent ch w run c)
              (result_if (dbus.is_signal message hal_interface signal_dev_removed)
                (reaction (dbus_signal_device_removed ch w) []) (reaction (returns w) [])
                (removed-IsConsistent ch w run c) c)))),
    udev_device-IsConsistent devtype action ch w run c,
  )
