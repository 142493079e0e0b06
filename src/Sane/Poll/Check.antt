-- ===== src/Sane/Poll/Check.antt =====
-- The check of one option in the polling loop of sane_poll of src/scanbd/sane.c, up to the new
-- value of its entry. `none` is a fault: a failed assertion, an access outside st->opts, or a null
-- pointer that is read.
pub mod Ready
pub mod Safe
pub mod Fires
use scanbd.Prelude.{
  ℕ, ◌>>=◌, if◌then◌else◌, ◌==◌, Bool, true, false, ◌&&◌, Option, none, some, get_elem?, store,
}
use scanbd.Sane.Types.{Descriptor, Driver, Regex, OptValue, Thread, DevOption}
use scanbd.Sane.Value.Read.{get_sane_option_value, is_numerical, is_string}
use scanbd.Sane.Match.Search.{find_number}
use scanbd.Sane.Match.Options.Entry.{runs_script}

-- The thread once an action has been done with: the end of the critical section after the script.
abbrev pub handled : Thread → Thread
handled st = record st { triggered = false; triggered_option = none }

-- A copy of the value of an earlier entry for the same option.
unfoldable pub copy_value : OptValue → OptValue
copy_value v = record v { reg = none }

-- The right operand of the string trigger's `&&`, read only if the left one holds.
unfoldable pub to_matches : Bool → Regex → DevOption → OptValue → Option Bool
to_matches false re entry value = some false
to_matches true re entry value = do
  to ← entry.to_value.reg
  after ← value.str
  some (re.matches to after)

-- Whether the change from the entry's value to the new one fires the trigger.
unfoldable pub fires : Regex → Descriptor → DevOption → OptValue → Option Bool
unfolding to_matches
fires re odesc entry value =
    if is_numerical odesc.type
    then some (
        (entry.from_value.num_value == entry.value.num_value)
        && (entry.to_value.num_value == value.num_value))
    else if is_string odesc.type
    then (do
      from ← entry.from_value.reg
      before ← entry.value.str
      to_matches (re.matches from before) re entry value)
    else none

-- The descriptor of an option of the opened device.
unfoldable pub open_descriptor : {D : Type 0} → Driver D → D → Thread → ℕ → Option Descriptor
open_descriptor sane d st n = if st.is_open then sane.descriptor d n else none

module _ {D : Type 0} (sane : Driver D) where
  -- An option is queried once in a pass; a later entry for it takes the earlier one's value.
  unfoldable pub new_value : D → Thread → ℕ → DevOption → Option (OptValue × D)
  unfolding copy_value
  new_value d st si entry = do
    o ← find_number DevOption.number si st.opts entry.number 0
    if o == si
        then some (get_sane_option_value sane d entry.number)
        else (do earlier ← get_elem? st.opts o; some (copy_value earlier.value, d))

module _ {D : Type 0} (sane : Driver D) (re : Regex) where
  -- The check of an entry with a script.
  unfoldable pub check_entry : D → Thread → ℕ → DevOption → Descriptor → Option (D × Thread)
  unfolding fires
  check_entry d st si entry odesc = do
    (value, d') ← new_value sane d st si entry
    fired ← fires re odesc entry value
    opts ← store st.opts si (record entry { value = value })
    some (
      d',
      record st {
        opts = opts;
        triggered = if fired then true else st.triggered;
        triggered_option = if fired then some si else st.triggered_option;
      },
    )

  -- An entry without a script is passed over.
  unfoldable pub check_option : D → Thread → ℕ → Option (D × Thread)
  check_option d st si = do
    entry ← get_elem? st.opts si
    odesc ← open_descriptor sane d st entry.number
    if runs_script entry.script then check_entry d st si entry odesc else some (d, st)
