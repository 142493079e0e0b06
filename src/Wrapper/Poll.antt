-- ===== src/Wrapper/Poll.antt =====
-- scbtn_poll of src/scanbd/scanbuttond_wrapper.c: its tables, and its loop as a machine whose steps
-- lie between two points at which the thread's mutex changes hands. `none` is a fault: a failed
-- assertion or an access outside an array. The steps are those of the only thread
-- that polls: with several, each writes the index of the loop of all others at any time, and the
-- accesses to the entries may leave the array; that is not modelled.
pub mod Press
pub mod Start
pub mod Valid
pub mod Steps
pub mod Served
use scanbd.Prelude.{
  ℕ, zero, suc, ◌>>=◌, ◌==◌, ltb, ◌&&◌, ◌||◌, if◌then◌else◌, Bool, true, false, Option, none, some,
  List, [], ◌∷◌, CString, lit, str_eq, take, is_neg, get_elem?, store, replicate, ℤ, pos, negsuc,
}
use scanbd.Sane.Types.{Regex, Section}
use scanbd.Sane.Match.Options.Entry.{runs_script}
use scanbd.Sane.Poll.Setup.{Config, DeviceSection}
use scanbd.Sane.Poll.Environment.{Process, or_null}
use scanbd.Dbus.Hook.{hook_environment}
use scanbd.Scanbuttond.Device.{Scanner, is_zero}
use scanbd.Scanbuttond.Meta.{Module}
use scanbd.Wrapper.Match.{ScbtnOption, ScbtnThread, scbtn_find_matching_options}

-- scanbtnd_button_name: the name of a backend that starts with "Genesys", and of another.
unfoldable pub genesys_name : ℕ → CString
genesys_name zero = lit "zero"
genesys_name (suc zero) = lit "copy"
genesys_name (suc (suc zero)) = lit "scan"
genesys_name (suc (suc (suc zero))) = lit "pdf"
genesys_name (suc (suc (suc (suc zero)))) = lit "email"
genesys_name (suc (suc (suc (suc (suc zero))))) = lit "stop"
genesys_name _ = lit "default"

unfoldable pub other_name : ℕ → CString
other_name zero = lit "zero"
other_name (suc zero) = lit "scan"
other_name (suc (suc zero)) = lit "copy"
other_name (suc (suc (suc zero))) = lit "email"
other_name (suc (suc (suc (suc zero)))) = lit "pdf"
other_name (suc (suc (suc (suc (suc zero))))) = lit "stop"
other_name _ = lit "default"

abbrev pub scanbtnd_button_name : CString → ℕ → CString
scanbtnd_button_name name button =
    if str_eq (take 7 name) (lit "Genesys") then genesys_name button else other_name button

-- An entry of the zeroed array st->opts.
abbrev pub empty_entry : ScbtnOption
empty_entry = record {
  number = 0;
  from_value = 0;
  to_value = 0;
  value = 0;
  script = none;
  action_name = none;
}

abbrev pub allocate_opts : ℕ → ScbtnThread
allocate_opts n = record {
  num_of_options = n;
  opts = replicate n empty_entry;
  num_of_options_with_scripts = 0;
}

module _ (re : Regex) (backend_name : CString) (cfg : Config) where
  abbrev pub match_actions : ScbtnThread → Section → Option ScbtnThread
  match_actions st sec =
      scbtn_find_matching_options re (λ n. some (scanbtnd_button_name backend_name n))
        cfg.multiple_actions st sec

  -- The loop over the device sections whose filter selects the product.
  unfoldable pub match_locals : CString → List DeviceSection → ScbtnThread → Option ScbtnThread
  match_locals product [] st = some st
  match_locals product (loc ∷ locs) st = do
    st' ←
        if is_neg (re.regcomp loc.filter)
        then some st
        else if re.matches loc.filter product
        then match_actions st loc.section
        else some st
    match_locals product locs st'

  -- The table of a scanner with `num_buttons` options.
  unfoldable pub scbtn_table : CString → ℕ → Option ScbtnThread
  scbtn_table product num_buttons = do
    st ← match_actions (allocate_opts num_buttons) cfg.global
    match_locals product cfg.devices st

-- Where a polling thread is: about to ask for the button; about to check an entry for a button;
-- waiting for the script of an action; waiting for the device to settle before it is opened again;
-- between two passes; ended. It holds its mutex in the first two.
pub data ScbtnPhase : Type 0 where
  asking : ScbtnPhase
  checking : ℤ → ScbtnPhase
  running : ℤ → CString → List CString → ScbtnPhase
  settling : ℤ → ScbtnPhase
  sleeping : ScbtnPhase
  ended : ScbtnPhase

-- A daemon with one polling thread. `state` is that of the backend; `index` is the variable `si`, which
-- is static, so that it is the program's and not the thread's; `alarm` whether SIGALRM will come, by which all is started anew.
pub record ScbtnPoller (S : Type 0) : Type 0 where
  pub state : S
  pub dev : Scanner
  pub thread : ScbtnThread
  pub triggered : Bool
  pub triggered_option : Option ℕ
  pub index : ℕ
  pub phase : ScbtnPhase
  pub alarm : Bool

-- (button > 0) && (button == number)
abbrev pub is_pressed : ℕ → ℤ → Bool
is_pressed number (pos button) = ltb 0 button && button == number
is_pressed number (negsuc n) = false

abbrev pub value_of : Bool → ℕ
value_of b = if b then 1 else 0

-- The value of an entry after a pass, and whether its action is triggered.
unfoldable pub check_button : ℤ → ScbtnOption → ScbtnOption × Bool
check_button button entry =
    let pressed = is_pressed entry.number button in
    (
      record entry { value = value_of pressed },
      pressed && (entry.from_value == entry.value && entry.to_value == 1),
    )

-- What the thread acts on.
abbrev pub pending_action : {S : Type 0} → ScbtnPoller S → Option ℕ
pending_action s = if s.triggered then s.triggered_option else none

module _ {S : Type 0} (backend : Module S) (p : Process) (script_path : CString → CString) where
  -- scanbtnd_close, whose result is only reported.
  unfoldable pub closed_dev : ℤ × Scanner × S → ScbtnPoller S → ScbtnPoller S
  closed_dev (result, dev, state) s = record s { dev = dev; state = state }

  -- The action `k` is started while an entry is checked: no function has a variable.
  unfoldable pub begin_script : ℤ → ScbtnPoller S → ℕ → Option (ScbtnPoller S)
  begin_script button s k =
      if ltb k s.thread.num_of_options_with_scripts
      then (do
        action ← get_elem? s.thread.opts k
        env ← hook_environment p (or_null action.action_name) s.dev.sane_device
        script ← action.script
        if runs_script action.script
            then some (record (closed_dev (backend.close_scanner s.dev s.state) s) {
              phase = running button (script_path script) env;
            })
            else none)
      else none

  unfoldable pub act_on_button : ℤ → ScbtnPoller S → Option ℕ → Option (ScbtnPoller S)
  act_on_button button s none = some (record s { index = suc s.index; phase = checking button })
  act_on_button button s (some k) = begin_script button s k

  -- The entry with its new value, and the trigger if it fires.
  unfoldable pub update_entry : ScbtnOption × Bool → ScbtnPoller S → Option (ScbtnPoller S)
  update_entry (entry, fires) s = do
    opts ← store s.thread.opts s.index entry
    some (record s {
      thread = record s.thread { opts = opts };
      triggered = s.triggered || fires;
      triggered_option = if fires then some s.index else s.triggered_option;
    })

  -- A round of the loop over the entries; one without a script is left at once.
  unfoldable pub scbtn_round : ℤ → ScbtnPoller S → Option (ScbtnPoller S)
  scbtn_round button s = do
    entry ← get_elem? s.thread.opts s.index
    if runs_script entry.script
        then (do
          s' ← update_entry (check_button button entry) s
          act_on_button button s' (pending_action s'))
        else some (record s { index = suc s.index; phase = checking button })

  unfoldable pub button_asked : Option (ℤ × S) → ScbtnPoller S → Option (ScbtnPoller S)
  button_asked none s = none
  button_asked (some (button, state)) s =
      some (record s { state = state; index = 0; phase = checking button })

  unfoldable pub device_reopened : ℤ → ℤ × Scanner × S → ScbtnPoller S → ScbtnPoller S
  device_reopened button (result, dev, state) s =
      if is_zero result
      then record s { dev = dev; state = state; index = suc s.index; phase = checking button }
      else record s { dev = dev; state = state; phase = ended; alarm = true }

  unfoldable pub scbtn_next : ScbtnPhase → ScbtnPoller S → Option (ScbtnPoller S)
  scbtn_next asking s = button_asked (backend.get_button s.dev s.state) s
  scbtn_next (checking button) s =
      let round = scbtn_round button s in
      if ltb s.index s.thread.num_of_options_with_scripts
      then round
      else some (record s { phase = sleeping })
  scbtn_next (running button script env) s =
      some (record s { triggered = false; triggered_option = none; phase = settling button })
  scbtn_next (settling button) s =
      some (device_reopened button (backend.open_scanner s.dev s.state) s)
  scbtn_next sleeping s = some (record s { phase = asking })
  scbtn_next ended s = some s

  abbrev pub scbtn_step : ScbtnPoller S → Option (ScbtnPoller S)
  scbtn_step s = scbtn_next s.phase s

module _ {S : Type 0} (backend : Module S) (re : Regex) (backend_name : CString)
    (cfg : Config) where
  -- The start of the thread: a scanner that cannot be opened ends it with an alarm, one without a
  -- button without.
  unfoldable pub start_opened : ScbtnPoller S → ℕ → Option (ScbtnPoller S)
  start_opened s zero = some (record s { phase = ended })
  start_opened s (suc n) = do
    table ← scbtn_table re backend_name cfg s.dev.product (suc n)
    some (record s { thread = table; phase = asking })

  unfoldable pub scbtn_opened : ℤ × Scanner × S → ScbtnPoller S → Option (ScbtnPoller S)
  scbtn_opened (result, dev, state) s =
      if is_zero result
      then start_opened (record s { dev = dev; state = state }) dev.num_buttons
      else some (record s { dev = dev; state = state; phase = ended; alarm = true })

  abbrev pub scbtn_poll_start : ScbtnPoller S → Option (ScbtnPoller S)
  scbtn_poll_start s = scbtn_opened (backend.open_scanner s.dev s.state) s
