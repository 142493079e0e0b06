-- ===== src/Dbus/Tests.antt =====
-- src/scanbd/dbus.c on small inputs.
use scanbd.Prelude.{
  ◌≡◌, refl, false, ◌&&◌, none, some, List, [], ◌∷◌, ◌++◌, CString, lit, str_eq, arith,
}
use scanbd.Sane.Threads.{Daemon, returns, start_thread}
use scanbd.Sane.Threads.Lists.{IsConsistent}
use scanbd.Sane.Threads.Safe.{Holds}
use scanbd.Sane.Poll.Environment.{Process, assign, path_string, or_passwd, pwd_from}
use scanbd.Config.ScriptPath.{make_script_path_abs}
use scanbd.Dbus.{
  Change, Argument, uint32, Messages, to_int, trigger_thread_run, reaction, message_func,
  dbus_call_trigger, udev_device,
}
use scanbd.Dbus.Dispatch.{HooksRun, message_func-IsConsistent}
use scanbd.Dbus.Calls.{KeepsCalls, IsTriggered, dbus_call_trigger-IsTriggered}
use scanbd.Dbus.Hook.{IsHooked, hook_environment, hook_device_ex, hook_device_ex-IsHooked}

-- A method call.
pub record Call : Type 0 where
  pub interface : CString
  pub member : CString
  pub args : List Argument

abbrev pub calls : Messages Call
calls = record {
  is_method_call = λ m interface member. str_eq m.interface interface && str_eq m.member member;
  is_signal = λ m interface member. false;
  arguments = λ m. m.args;
  new_method_call =
      λ interface member. record { interface = interface; member = member; args = [] };
  append_uint32 = λ m n. record m { args = m.args ++ uint32 n ∷ [] };
}

pub calls-KeepsCalls : KeepsCalls calls
calls-KeepsCalls = record {
  called = λ interface method interface' method'. refl;
  no_arguments = λ interface method. refl;
  still_called = λ m n interface method. refl;
  appended = λ m n. refl;
}

abbrev pub daemon : Daemon
daemon = record {
  sane_device_list = some (lit "test:0" ∷ []);
  num_devices = 1;
  sane_poll_threads = some (start_thread (lit "test:0") ∷ []);
}

pub daemon-IsConsistent : IsConsistent daemon
daemon-IsConsistent = record { counted = refl; threads = refl }

abbrev pub process : Process
process = record {
  getenv = λ name. none;
  getcwd = some (lit "/");
  passwd = some (lit "saned", lit "/home/saned");
  device_env = some (lit "SCANBD_DEVICE");
  action_env = some (lit "SCANBD_ACTION");
}

-- A scanner is found, and no script is configured for its removal.
abbrev pub change : Change
change = record {
  found = some (lit "test:0" ∷ lit "test:1" ∷ []);
  process = process;
  cfg_dir = lit "/etc/scanbd";
  scriptdir = none;
  insert_script = some (lit "insert.script");
  remove_script = none;
}

pub change-HooksRun : HooksRun change
unfolding hook_device_ex hook_environment or_passwd pwd_from
    scanbd.Sane.Poll.Environment.named_strings make_script_path_abs
change-HooksRun = record { inserted = (_, refl); removed = (none, refl) }

message_func-IsConsistent_example :
    Holds IsConsistent (message_func calls (dbus_call_trigger calls 0 2) change daemon).result
    × Holds IsConsistent (udev_device (some (lit "usb_device")) (some (lit "add")) change daemon)
message_func-IsConsistent_example =
    message_func-IsConsistent calls (dbus_call_trigger calls 0 2) (some (lit "usb_device"))
      (some (lit "add")) change daemon change-HooksRun daemon-IsConsistent

-- The device 2 ^ 32 - 1, which is -1 as an int.
dbus_call_trigger-IsTriggered_example :
    (message_func calls (dbus_call_trigger calls 4294967295 2) change daemon
      ≡ reaction (returns daemon) ((to_int 4294967295, to_int 2) ∷ []))
    × IsTriggered 4294967295 2 daemon (trigger_thread_run (to_int 4294967295, to_int 2) daemon)
dbus_call_trigger-IsTriggered_example =
    dbus_call_trigger-IsTriggered calls calls-KeepsCalls 4294967295 2 change daemon (omega arith)
      (omega arith)

hook_device_ex-IsHooked_example : IsHooked process (lit "/etc/scanbd") none (lit "insert.script") (
    hook_device_ex process
      (lit "/etc/scanbd")
      none
      (some (lit "insert.script"))
      (lit "insert")
      (lit "dbus device"))
hook_device_ex-IsHooked_example =
    hook_device_ex-IsHooked process (lit "/etc/scanbd") none (some (lit "insert.script"))
      (lit "insert") (lit "dbus device") refl
