-- ===== src/Sane/Poll/Loop.antt =====
-- The polling loop of sane_poll of src/scanbd/sane.c as a machine: its steps between two points at
-- which the thread's mutex changes hands, or at which the device is opened. `none` is a fault.
pub mod Invariant
pub mod Rounds
pub mod Reachable
pub mod Served
pub mod Stuck
use scanbd.Prelude.{
  ℕ, zero, suc, ◌>>=◌, ltb, leb, if◌then◌else◌, Bool, true, false, Option, none, some, List,
  CString, get_elem?,
}
use scanbd.Sane.Types.{Driver, Regex, ValueType, Thread, Descriptor, DevOption}
use scanbd.Sane.Match.Options.Entry.{runs_script}
use scanbd.Sane.Poll.Check.{open_descriptor, check_option, handled}
use scanbd.Sane.Poll.Environment.{Process, environment}
use scanbd.Sane.Poll.Setup.{Status, status_good, status_access_denied, status_other, Opener}

-- Where a polling thread is: about to check an entry; waiting for the script of an action, with the
-- mutex free; waiting for the device to settle, with the mutex free, before it is opened again;
-- between two passes, with the mutex free; ended.
pub data Phase : Type 0 where
  checking : ℕ → Phase
  running : ℕ → CString → List CString → Phase
  settling : ℕ → Phase
  sleeping : Phase
  ended : Phase

pub record Poller (D : Type 0) : Type 0 where
  pub device : D
  pub thread : Thread
  pub phase : Phase

-- The trigger that the thread acts on, if any.
abbrev pub pending : Thread → Option ℕ
pending st = if st.triggered then st.triggered_option else none

-- A thread that opened its device again, or did not.
unfoldable pub after_reopen : {D : Type 0} → ℕ → Status → D → Thread → Poller D
after_reopen si status_good d st = record {
  device = d;
  thread = record st { is_open = true };
  phase = checking (suc si);
}
after_reopen si status_access_denied d st = record { device = d; thread = st; phase = ended }
after_reopen si status_other d st = record { device = d; thread = st; phase = checking (suc si) }

module _ {D : Type 0} (sane : Driver D) (opener : Opener D) (re : Regex) (p : Process)
    (script_path : CString → CString) where
  -- The action `k` is started while the entry `si`, of the type `polled`, is checked: its
  -- environment is built, the device closed.
  unfoldable pub begin_action : ValueType → ℕ → D → Thread → ℕ → Option (Poller D)
  begin_action polled si d st k =
      if ltb k st.num_of_options_with_scripts
      then (do
        (env, d') ← environment sane p polled d st k
        action ← get_elem? st.opts k
        script ← action.script
        if runs_script action.script
            then some (record {
              device = opener.close_device d';
              thread = record st { is_open = false };
              phase = running si (script_path script) env;
            })
            else none)
      else none

  unfoldable pub act_on : ValueType → ℕ → D → Thread → Option ℕ → Option (Poller D)
  act_on polled si d st none = some (record { device = d; thread = st; phase = checking (suc si) })
  act_on polled si d st (some k) = begin_action polled si d st k

  abbrev pub act : ValueType → ℕ → D → Thread → Option (Poller D)
  act polled si d st = act_on polled si d st (pending st)

  -- One round of the loop over the entries; an entry without a script is left at once.
  unfoldable pub poll_round : ℕ → D → Thread → Option (Poller D)
  poll_round si d st = do
    entry ← get_elem? st.opts si
    odesc ← open_descriptor sane d st entry.number
    (d', st') ← check_option sane re d st si
    if runs_script entry.script
        then act odesc.type si d' st'
        else some (record { device = d'; thread = st'; phase = checking (suc si) })

  unfoldable pub next_step : Phase → D → Thread → Option (Poller D)
  next_step (checking si) d st =
      let round = poll_round si d st in
      if ltb si st.num_of_options_with_scripts
      then round
      else some (record { device = d; thread = st; phase = sleeping })
  next_step (running si script env) d st =
      some (record { device = d; thread = handled st; phase = settling si })
  next_step (settling si) d st =
      let (status, d') = opener.open_device d st.dev_name in some (after_reopen si status d' st)
  next_step sleeping d st = some (record { device = d; thread = st; phase = checking 0 })
  next_step ended d st = some (record { device = d; thread = st; phase = ended })

  unfoldable pub poll_step : Poller D → Option (Poller D)
  poll_step s = next_step s.phase s.device s.thread

-- What sane_trigger_action does with a thread whose mutex it holds.
pub data TriggerOutcome : Type 0 where
  no_such_action : TriggerOutcome
  waits : TriggerOutcome
  fired : Thread → TriggerOutcome

unfoldable pub trigger_thread : ℕ → Thread → TriggerOutcome
trigger_thread action st =
    if leb st.num_of_options_with_scripts action
    then no_such_action
    else if st.triggered
    then waits
    else fired (record st { triggered = true; triggered_option = some action })

-- Where the polling thread does not hold its mutex.
abbrev pub mutex_free : Phase → Bool
mutex_free (checking si) = false
mutex_free _ = true
