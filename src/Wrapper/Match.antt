-- ===== src/Wrapper/Match.antt =====
-- scbtn_find_matching_options of src/scanbd/scanbuttond_wrapper.c. `none` is an access outside
-- st->opts or a failed assertion.
pub mod Overflow
pub mod Bounds
use scanbd.Prelude.{
  ℕ, zero, suc, ◌>>=◌, ◌==◌, if◌then◌else◌, Bool, true, false, Option, none, some, List, [], ◌∷◌,
  CString, is_neg, to_ulong, store,
}
use scanbd.Sane.Types.{Regex, Action, Section}
use scanbd.Sane.Match.Search.{find_number}
use scanbd.Sane.Match.Options.{script_of, title_of, slot_for}

-- struct scbtn_dev_option
pub record ScbtnOption : Type 0 where
  pub number : ℕ
  pub from_value : ℕ
  pub to_value : ℕ
  pub value : ℕ
  pub script : Option CString
  pub action_name : Option CString

-- struct scbtn_thread, as far as the matching of actions uses it.
pub record ScbtnThread : Type 0 where
  pub num_of_options : ℕ
  pub opts : List ScbtnOption
  pub num_of_options_with_scripts : ℕ

-- The entry for the button `opt + 1`.
abbrev pub scbtn_entry : Action → ℕ → ScbtnOption
scbtn_entry action opt = record {
  number = suc opt;
  from_value = to_ulong action.num_from;
  to_value = to_ulong action.num_to;
  value = 0;
  script = some (script_of action.script);
  action_name = some (title_of action.title);
}

unfoldable pub scbtn_write : Action → ℕ → ScbtnThread → ℕ → Option ScbtnThread
scbtn_write action opt st n = do
  opts ← store st.opts n (scbtn_entry action opt)
  some (record st {
    opts = opts;
    num_of_options_with_scripts =
        if n == st.num_of_options_with_scripts
        then suc st.num_of_options_with_scripts
        else st.num_of_options_with_scripts;
  })

-- The search ends as in sane.c, but no test for space follows.
unfoldable pub scbtn_install : Bool → Action → ℕ → ScbtnThread → Option ScbtnThread
scbtn_install multiple_actions action opt st = do
  n ← find_number ScbtnOption.number st.num_of_options_with_scripts st.opts (suc opt) 0
  scbtn_write action opt st
      (slot_for multiple_actions st.num_of_options st.num_of_options_with_scripts n)

-- `button_name` is scanbtnd_button_name for the device's backend.
module _ (re : Regex) (button_name : ℕ → Option CString) (multiple_actions : Bool) where
  unfoldable pub scbtn_option : Action → ℕ → ScbtnThread → Option ScbtnThread
  scbtn_option action opt st = do
    name ← button_name (suc opt)
    if re.matches action.filter name then scbtn_install multiple_actions action opt st else some st

  -- for (opt = ...; opt < st->num_of_options; opt += 1), with the rounds left.
  unfoldable pub scbtn_options : Action → ℕ → ℕ → ScbtnThread → Option ScbtnThread
  scbtn_options action zero opt st = some st
  scbtn_options action (suc k) opt st = do
    st' ← scbtn_option action opt st
    scbtn_options action k (suc opt) st'

  unfoldable pub scbtn_action : Action → ScbtnThread → Option ScbtnThread
  scbtn_action action st =
      if is_neg (re.regcomp action.filter)
      then some st
      else scbtn_options action st.num_of_options 0 st

  unfoldable pub scbtn_actions : List Action → ScbtnThread → Option ScbtnThread
  scbtn_actions [] st = some st
  scbtn_actions (action ∷ actions) st = do st' ← scbtn_action action st; scbtn_actions actions st'

  unfoldable pub scbtn_find_matching_options : ScbtnThread → Section → Option ScbtnThread
  scbtn_find_matching_options st sec = scbtn_actions sec.actions st
