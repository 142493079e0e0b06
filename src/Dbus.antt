-- ===== src/Dbus.antt =====
-- The messages that src/scanbd/dbus.c and the devices that src/scanbd/udev.c take notice of, and what
-- they do with the polling threads of src/scanbd/sane.c.
pub mod Dispatch
pub mod Calls
pub mod Hook
pub mod Tests
use scanbd.Prelude.{
  ℕ, zero, suc, ◌-◌, ◌%◌, ltb, if◌then◌else◌, Bool, true, false, Option, none, some, List, [], ◌∷◌,
  CString, lit, str_eq, ℤ, pos, negsuc,
}
use scanbd.Sane.Poll.Environment.{Process}
use scanbd.Dbus.Hook.{hook_device_insert, hook_device_remove}
use scanbd.Sane.Threads.{
  Daemon, Result, returns, faults, and_then, get_sane_devices, stop_sane_threads,
  start_sane_threads, sane_trigger_action,
}

-- An argument of a message, of the type DBUS_TYPE_UINT32 or another.
pub data Argument : Type 0 where
  uint32 : ℕ → Argument
  other_argument : Argument

-- The calls of libdbus on messages. `arguments` is what an iterator over the message gives.
pub record Messages (Msg : Type 0) : Type 0 where
  pub is_method_call : Msg → CString → CString → Bool
  pub is_signal : Msg → CString → CString → Bool
  pub arguments : Msg → List Argument
  pub new_method_call : CString → CString → Msg
  pub append_uint32 : Msg → ℕ → Msg

abbrev pub scanbd_interface : CString
scanbd_interface = lit "de.kmux.scanbd.server"

abbrev pub method_acquire : CString
method_acquire = lit "aquire"

abbrev pub method_release : CString
method_release = lit "release"

abbrev pub method_trigger : CString
method_trigger = lit "trigger"

abbrev pub hal_interface : CString
hal_interface = lit "org.freedesktop.Hal.Manager"

abbrev pub signal_dev_added : CString
signal_dev_added = lit "DeviceAdded"

abbrev pub signal_dev_removed : CString
signal_dev_removed = lit "DeviceRemoved"

-- The conversion of a dbus_uint32_t to int.
unfoldable pub to_int : ℕ → ℤ
to_int n = let m = n % 4294967296 in if ltb m 2147483648 then pos m else negsuc (4294967295 - m)

-- The thread that dbus_method_trigger starts: sane_trigger_action, which asserts that its numbers are
-- not negative.
unfoldable pub trigger_thread_run : ℤ × ℤ → Daemon → Result
trigger_thread_run (pos device, pos action) w = sane_trigger_action device action w
trigger_thread_run (pos device, negsuc action) w = faults
trigger_thread_run (negsuc device, action) w = faults

-- The device and the action of the threads that are started, at most one.
unfoldable pub dbus_method_trigger : List Argument → List (ℤ × ℤ)
dbus_method_trigger [] = []
dbus_method_trigger (other_argument ∷ args) = []
dbus_method_trigger (uint32 device ∷ []) = []
dbus_method_trigger (uint32 device ∷ other_argument ∷ args) = []
dbus_method_trigger (uint32 device ∷ uint32 action ∷ args) = (to_int device, to_int action) ∷ []

abbrev pub dbus_method_acquire : Daemon → Result
dbus_method_acquire w = stop_sane_threads w

abbrev pub dbus_method_release : Daemon → Result
dbus_method_release w = start_sane_threads w

-- A device that comes or goes: what SANE finds after the change, and the process with the
-- configuration that the hooks use.
pub record Change : Type 0 where
  pub found : Option (List CString)
  pub process : Process
  pub cfg_dir : CString
  pub scriptdir : Option CString
  pub insert_script : Option CString
  pub remove_script : Option CString

abbrev pub insert_hook : Change → Option (Option (CString × List CString))
insert_hook ch =
    hook_device_insert ch.process ch.cfg_dir ch.scriptdir ch.insert_script (lit "dbus device")

abbrev pub remove_hook : Change → Option (Option (CString × List CString))
remove_hook ch =
    hook_device_remove ch.process ch.cfg_dir ch.scriptdir ch.remove_script (lit "dbus device")

-- A failed assertion in a hook ends the daemon; the hook's script has no part in its state.
unfoldable pub after_hook : Option (Option (CString × List CString)) → Daemon → Result
after_hook none w = faults
after_hook (some run) w = returns w

unfoldable pub dbus_signal_device_added : Change → Daemon → Result
dbus_signal_device_added ch w =
    and_then (and_then (stop_sane_threads w) (after_hook (insert_hook ch)))
      (λ v. start_sane_threads (get_sane_devices ch.found v))

unfoldable pub dbus_signal_device_removed : Change → Daemon → Result
dbus_signal_device_removed ch w =
    and_then (and_then (stop_sane_threads w) (after_hook (remove_hook ch)))
      (λ v. start_sane_threads (get_sane_devices ch.found v))

-- What a message does with the polling threads, the threads that it starts for a trigger, and whether
-- it is reported as handled.
pub record Reaction : Type 0 where
  pub result : Result
  pub started : List (ℤ × ℤ)
  pub is_handled : Bool

-- No message has a reply.
abbrev pub reaction : Result → List (ℤ × ℤ) → Reaction
reaction result started = record { result = result; started = started; is_handled = false }

module _ {Msg : Type 0} (dbus : Messages Msg) where
  unfoldable pub message_func : Msg → Change → Daemon → Reaction
  message_func message ch w =
      if dbus.is_method_call message scanbd_interface method_acquire
      then reaction (dbus_method_acquire w) []
      else if dbus.is_method_call message scanbd_interface method_release
      then reaction (dbus_method_release w) []
      else if dbus.is_method_call message scanbd_interface method_trigger
      then reaction (returns w) (dbus_method_trigger (dbus.arguments message))
      else if dbus.is_signal message hal_interface signal_dev_added
      then reaction (dbus_signal_device_added ch w) []
      else if dbus.is_signal message hal_interface signal_dev_removed
      then reaction (dbus_signal_device_removed ch w) []
      else reaction (returns w) []

  -- The message that dbus_call_trigger sends.
  abbrev pub dbus_call_trigger : ℕ → ℕ → Msg
  dbus_call_trigger device action =
      dbus.append_uint32
        (dbus.append_uint32 (dbus.new_method_call scanbd_interface method_trigger) device) action

  -- The message that dbus_call_method sends, without a value.
  abbrev pub dbus_call_method : CString → Msg
  dbus_call_method method = dbus.new_method_call scanbd_interface method

-- A device that udev reports, by its type and the action: both may be NULL.
unfoldable pub udev_action : Option CString → Change → Daemon → Result
udev_action none ch w = returns w
udev_action (some action) ch w =
    and_then (if str_eq action (lit "add") then dbus_signal_device_added ch w else returns w)
      (λ v. if str_eq action (lit "remove") then dbus_signal_device_removed ch v else returns v)

unfoldable pub udev_device : Option CString → Option CString → Change → Daemon → Result
udev_device none action ch w = returns w
udev_device (some devtype) action ch w =
    if str_eq devtype (lit "usb_device") then udev_action action ch w else returns w
