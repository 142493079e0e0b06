-- ===== src/Sane/Threads.antt =====
-- The list of polling threads of src/scanbd/sane.c, and what the signal handlers of
-- src/scanbd/scanbd.c do with it.
pub mod Lists
pub mod Safe
pub mod Fresh
use scanbd.Prelude.{
  ℕ, zero, suc, leb, ◌==◌, if◌then◌else◌, Bool, true, false, Option, none, some, List, [], ◌∷◌,
  CString, length, get_elem?, set,
}
use scanbd.Sane.Types.{Thread}
use scanbd.Sane.Poll.Loop.{TriggerOutcome, no_such_action, waits, fired, trigger_thread}

-- The globals sane_device_list, num_devices and sane_poll_threads.
pub record Daemon : Type 0 where
  pub sane_device_list : Option (List CString)
  pub num_devices : ℕ
  pub sane_poll_threads : Option (List Thread)

-- A call returns, waits for a condition, or accesses memory outside an array.
pub data Result : Type 0 where
  returns : Daemon → Result
  blocked : Result
  faults : Result

abbrev pub and_then : Result → (Daemon → Result) → Result
and_then (returns w) f = f w
and_then blocked f = blocked
and_then faults f = faults

-- The devices up to the terminating null pointer.
abbrev pub count_devices : Option (List CString) → ℕ
count_devices none = 0
count_devices (some devices) = length devices

-- `found` is the list that sane_get_devices hands out, `none` a null pointer.
unfoldable pub get_sane_devices : Option (List CString) → Daemon → Daemon
get_sane_devices found w = record w { sane_device_list = found; num_devices = count_devices found }

-- A thread before it opens its device.
unfoldable pub start_thread : CString → Thread
start_thread dev = record {
  triggered = false;
  triggered_option = none;
  dev_name = dev;
  num_of_options = 0;
  is_open = false;
  opts = [];
  num_of_options_with_scripts = 0;
  functions = [];
  num_of_options_with_functions = 0;
}

-- The loop that starts a thread for each device, with the devices left to start.
unfoldable pub start_threads : ℕ → List CString → Option (List Thread)
start_threads zero devices = some []
start_threads (suc k) [] = none
start_threads (suc k) (dev ∷ devices) = elim (start_threads k devices) [
  | none ↦ none
  | some ts ↦ some (start_thread dev ∷ ts)
]

abbrev pub devices_of : Option (List CString) → List CString
devices_of none = []
devices_of (some devices) = devices

-- The first loop of stop_sane_threads: `some true` once no action is active.
unfoldable pub all_idle : ℕ → List Thread → Option Bool
all_idle zero ts = some true
all_idle (suc k) [] = none
all_idle (suc k) (st ∷ ts) = let rest = all_idle k ts in if st.triggered then some false else rest

unfoldable pub stop_threads : Daemon → Option Bool → Result
stop_threads w none = faults
stop_threads w (some true) = returns (record w { sane_poll_threads = none })
stop_threads w (some false) = blocked

unfoldable pub stop_list : Daemon → Option (List Thread) → Result
stop_list w none = returns w
stop_list w (some ts) = stop_threads w (all_idle w.num_devices ts)

abbrev pub stop_sane_threads : Daemon → Result
stop_sane_threads w = stop_list w w.sane_poll_threads

unfoldable pub start_all : Daemon → Option (List Thread) → Result
start_all w none = faults
start_all w (some ts) = returns (record w { sane_poll_threads = some ts })

-- Active threads are stopped first; without a device no thread is started.
unfoldable pub start_sane_threads : Daemon → Result
start_sane_threads w = and_then (stop_sane_threads w) (λ v.
    if v.num_devices == 0
    then returns v
    else start_all v (start_threads v.num_devices (devices_of v.sane_device_list)))

unfoldable pub after_trigger : Daemon → List Thread → ℕ → TriggerOutcome → Result
after_trigger w ts dev no_such_action = returns w
after_trigger w ts dev waits = blocked
after_trigger w ts dev (fired st) = returns (record w { sane_poll_threads = some (set ts dev st) })

unfoldable pub trigger_at : Daemon → List Thread → ℕ → ℕ → Option Thread → Result
trigger_at w ts dev action none = faults
trigger_at w ts dev action (some st) = after_trigger w ts dev (trigger_thread action st)

-- Without polling threads the caller waits for them to be started.
unfoldable pub trigger_in : Daemon → ℕ → ℕ → Option (List Thread) → Result
trigger_in w dev action none = blocked
trigger_in w dev action (some ts) = trigger_at w ts dev action (get_elem? ts dev)

unfoldable pub sane_trigger_action : ℕ → ℕ → Daemon → Result
sane_trigger_action dev action w =
    if w.num_devices == 0
    then returns w
    else if leb w.num_devices dev
    then returns w
    else trigger_in w dev action w.sane_poll_threads

-- What sig_hup_handler does with the threads; sig_usr1_handler and sig_usr2_handler are
-- stop_sane_threads and start_sane_threads.
unfoldable pub sig_hup_handler : Option (List CString) → Daemon → Result
sig_hup_handler found w =
    and_then (stop_sane_threads w) (λ v. start_sane_threads (get_sane_devices found v))
