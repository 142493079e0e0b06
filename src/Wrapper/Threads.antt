-- ===== src/Wrapper/Threads.antt =====
-- The list of polling threads of src/scanbd/scanbuttond_wrapper.c, and what src/scanbd/scanbd.c and
-- src/scanbd/dbus.c do with it in the build with the backends of scanbuttond.
pub mod Safe
pub mod Removed
use scanbd.Prelude.{
  ℕ, zero, suc, leb, ◌==◌, if◌then◌else◌, Bool, true, false, Option, none, some, List, [], ◌∷◌,
  CString, length, get_elem?, set, ℤ,
}
use scanbd.Scanbuttond.Device.{Scanner}
use scanbd.Scanbuttond.Meta.{Module}
use scanbd.Dbus.{Change, insert_hook, remove_hook}

-- What the list and its callers see of a scbtn_thread_t that has been started; its device is the one
-- at its place in the list of devices.
pub record ThreadSlot : Type 0 where
  pub triggered : Bool
  pub triggered_option : Option ℕ
  pub num_of_options_with_scripts : ℕ

-- The globals scbtn_device_list, num_devices and scbtn_poll_threads, with the state of the backend.
-- An entry that is zeroed, and that no thread was started for, is `none`. `freed` says that the
-- scanners that scbtn_device_list points to have been freed with the backend; what an access to them
-- does then is undefined in C, and here they still have what they held.
pub record ScbtnDaemon (S : Type 0) : Type 0 where
  pub scbtn_device_list : List Scanner
  pub freed : Bool
  pub num_devices : ℕ
  pub scbtn_poll_threads : Option (List (Option ThreadSlot))
  pub state : S

-- A call returns, waits for a condition, accesses what is not there, or ends the daemon with a
-- failure.
pub data ScbtnResult (S : Type 0) : Type 0 where
  returned : ScbtnDaemon S → ScbtnResult S
  waiting : ScbtnResult S
  faulted : ScbtnResult S
  exited : ScbtnResult S

unfoldable pub then_do :
    {S : Type 0} → ScbtnResult S → (ScbtnDaemon S → ScbtnResult S) → ScbtnResult S
then_do (returned w) f = f w
then_do waiting f = waiting
then_do faulted f = faulted
then_do exited f = exited

abbrev pub fresh_slot : ThreadSlot
fresh_slot = record { triggered = false; triggered_option = none; num_of_options_with_scripts = 0 }

-- The loop that starts the threads, over the entries and the devices that are left.
unfoldable pub start_slots : ℕ → List Scanner → List (Option ThreadSlot)
start_slots zero devs = []
start_slots (suc k) [] = none ∷ start_slots k []
start_slots (suc k) (dev ∷ devs) = some fresh_slot ∷ start_slots k devs

-- The first loop of stop_scbtn_threads: `some true` once no action is active.
unfoldable pub all_quiet : ℕ → List Scanner → List (Option ThreadSlot) → Option Bool
all_quiet zero devs ts = some true
all_quiet (suc k) [] ts = some true
all_quiet (suc k) (dev ∷ devs) [] = none
all_quiet (suc k) (dev ∷ devs) (none ∷ ts) = none
all_quiet (suc k) (dev ∷ devs) (some t ∷ ts) =
    let rest = all_quiet k devs ts in if t.triggered then some false else rest

module _ {S : Type 0} (backend : Module S) where
  -- The second loop: the device of each thread is closed.
  unfoldable pub close_devices : ℕ → List Scanner → S → List Scanner × S
  close_devices zero devs state = (devs, state)
  close_devices (suc k) [] state = ([], state)
  close_devices (suc k) (dev ∷ devs) state =
      let (result, dev', state') = backend.close_scanner dev state in
      let (devs', state'') = close_devices k devs state' in (dev' ∷ devs', state'')

  unfoldable pub get_scbtn_devices : ScbtnDaemon S → ScbtnDaemon S
  get_scbtn_devices w =
      let found = backend.get_supported_devices w.state in
      record w { scbtn_device_list = found; freed = false; num_devices = length found }

  unfoldable pub stopped : ScbtnDaemon S → List Scanner × S → ScbtnDaemon S
  stopped w (devs, state) = record w {
    scbtn_device_list = devs;
    scbtn_poll_threads = none;
    state = state;
  }

  unfoldable pub stop_slots : ScbtnDaemon S → Option Bool → ScbtnResult S
  stop_slots w none = faulted
  stop_slots w (some false) = waiting
  stop_slots w (some true) =
      returned (stopped w (close_devices w.num_devices w.scbtn_device_list w.state))

  unfoldable pub stop_running : ScbtnDaemon S → Option (List (Option ThreadSlot)) → ScbtnResult S
  stop_running w none = returned w
  stop_running w (some ts) = stop_slots w (all_quiet w.num_devices w.scbtn_device_list ts)

  abbrev pub stop_scbtn_threads : ScbtnDaemon S → ScbtnResult S
  stop_scbtn_threads w = stop_running w w.scbtn_poll_threads

  -- The list of no thread is not a null pointer.
  unfoldable pub started_slots : ScbtnDaemon S → ScbtnDaemon S
  started_slots w = record w {
    scbtn_poll_threads = some (start_slots w.num_devices w.scbtn_device_list);
  }

  abbrev pub start_scbtn_threads : ScbtnDaemon S → ScbtnResult S
  start_scbtn_threads w = then_do (stop_scbtn_threads w) (λ v. returned (started_slots v))

  unfoldable pub trigger_slot :
      ScbtnDaemon S → List (Option ThreadSlot) → ℕ → ℕ → Option (Option ThreadSlot) → ScbtnResult S
  trigger_slot w ts dev action none = faulted
  trigger_slot w ts dev action (some none) = returned w
  trigger_slot w ts dev action (some (some t)) =
      if leb t.num_of_options_with_scripts action
      then returned w
      else if t.triggered
      then waiting
      else returned (record w {
        scbtn_poll_threads =
            some
              (set ts dev (some (record t { triggered = true; triggered_option = some action })));
      })

  -- Without polling threads the caller waits for them to be started.
  unfoldable pub trigger_running :
      ScbtnDaemon S → ℕ → ℕ → Option (List (Option ThreadSlot)) → ScbtnResult S
  trigger_running w dev action none = waiting
  trigger_running w dev action (some ts) = trigger_slot w ts dev action (get_elem? ts dev)

  unfoldable pub scbtn_trigger_action : ℕ → ℕ → ScbtnDaemon S → ScbtnResult S
  scbtn_trigger_action dev action w =
      if w.num_devices == 0
      then returned w
      else if leb w.num_devices dev
      then returned w
      else trigger_running w dev action w.scbtn_poll_threads

  -- scbtn_shutdown, which ends the backend: its scanners are freed, while the list and the number of
  -- the devices stay as they are.
  unfoldable pub shut_down : ScbtnDaemon S → Option S → ScbtnResult S
  shut_down w none = faulted
  shut_down w (some state) = returned (record w { freed = true; state = state })

  unfoldable pub scbtn_shutdown : ScbtnDaemon S → ScbtnResult S
  scbtn_shutdown w = shut_down w (backend.exit w.state)

  -- scanbtnd_init, whose failure ends the daemon.
  unfoldable pub loaded : ScbtnDaemon S → Option S → ScbtnResult S
  loaded w none = exited
  loaded w (some state) = returned (record w { state = state })

  unfoldable pub load_backend : ScbtnDaemon S → ScbtnResult S
  load_backend w = loaded w (backend.init w.state)

  -- A failed assertion in a hook ends the daemon.
  unfoldable pub hooked : Option (Option (CString × List CString)) → ScbtnDaemon S → ScbtnResult S
  hooked none w = faulted
  hooked (some run) w = returned w

  unfoldable pub renew : ScbtnDaemon S → ScbtnResult S
  renew w = start_scbtn_threads (get_scbtn_devices w)

  -- sig_hup_handler.
  abbrev pub scbtn_hup_handler : ScbtnDaemon S → ScbtnResult S
  scbtn_hup_handler w =
      then_do (then_do (then_do (stop_scbtn_threads w) scbtn_shutdown) load_backend) renew

  -- dbus_signal_device_added and dbus_signal_device_removed.
  abbrev pub replaced : Option (Option (CString × List CString)) → ScbtnDaemon S → ScbtnResult S
  replaced hook w =
      then_do (then_do (then_do (stop_scbtn_threads w) scbtn_shutdown) (hooked hook)) load_backend

  abbrev pub scbtn_device_added : Change → ScbtnDaemon S → ScbtnResult S
  scbtn_device_added ch w = then_do (replaced (insert_hook ch) w) renew

  abbrev pub scbtn_device_removed : Change → ScbtnDaemon S → ScbtnResult S
  scbtn_device_removed ch w = replaced (remove_hook ch) w
