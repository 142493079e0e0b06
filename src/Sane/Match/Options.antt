-- ===== src/Sane/Match/Options.antt =====
-- sane_find_matching_options of src/scanbd/sane.c. `none` is a fault: an access outside st->opts,
-- which has one entry for each option of the device, or a failed assertion.
pub mod Entry
pub mod Bounds
pub mod Append
use scanbd.Prelude.{
  ℕ, zero, suc, ◌-◌, ◌>>=◌, if◌then◌else◌, ◌==◌, ltb, Bool, true, false, ◌&&◌, not, Option, none,
  some, List, [], ◌∷◌, CString, lit, store, get_elem?, is_neg, to_ulong,
}
use scanbd.Sane.Types.{Descriptor, Driver, Regex, OptValue, Thread, DevOption, Action, Section}
use scanbd.Sane.Value.Read.{sane_option_value_free, get_sane_option_value, is_numerical, is_string}
use scanbd.Sane.Match.Search.{candidate, find_number}

-- SCANBD_NULL_STRING
abbrev pub null_string : CString
null_string = lit "(null)"

-- A missing or empty script is replaced by SCANBD_NULL_STRING.
abbrev pub script_of : Option CString → CString
script_of none = null_string
script_of (some []) = null_string
script_of (some (c ∷ s)) = c ∷ s

abbrev pub title_of : Option CString → CString
title_of none = lit "(none)"
title_of (some t) = t

-- The entry to write, from where the search for the option's number ended: in place of the found
-- one, or, with multiple actions, behind the used ones.
unfoldable pub slot_for : Bool → ℕ → ℕ → ℕ → ℕ
slot_for multiple_actions num_of_options count n =
    if n == count
    then n
    else if not multiple_actions
    then n
    else if ltb n num_of_options
    then count
    else n

-- The part of an entry that does not depend on the option's type.
unfoldable pub common_entry : Action → ℕ → DevOption → DevOption
unfolding sane_option_value_free
common_entry action opt old = record old {
  number = opt;
  action_name = some (title_of action.title);
  script = some (script_of action.script);
  from_value = sane_option_value_free old.from_value;
  to_value = sane_option_value_free old.to_value;
  value = sane_option_value_free old.value;
}

unfoldable pub numerical_entry : Action → DevOption → OptValue → DevOption
numerical_entry action entry v = record entry {
  from_value = record entry.from_value { num_value = to_ulong action.num_from };
  to_value = record entry.to_value { num_value = to_ulong action.num_to };
  value = v;
}

where_compiled : OptValue → CString → OptValue
where_compiled v pattern = record v { str = some pattern; reg = some pattern }

-- A trigger whose expressions do not compile (`ret < 0`) is left without them.
unfoldable pub string_entry : Bool → Action → DevOption → OptValue → DevOption
unfolding sane_option_value_free where_compiled
string_entry valid action entry v =
    let filled = record entry {
      from_value = where_compiled entry.from_value action.str_from;
      to_value = where_compiled entry.to_value action.str_to;
      value = v;
    } in
    if valid then filled else record filled {
      from_value = sane_option_value_free filled.from_value;
      to_value = sane_option_value_free filled.to_value;
      value = sane_option_value_free filled.value;
    }

-- The entry for an option, and whether it counts; `none` is the last `assert(false)`.
unfoldable pub new_entry :
    Regex → Action → Descriptor → ℕ → DevOption → OptValue → Option (DevOption × Bool)
unfolding common_entry numerical_entry string_entry
new_entry re action odesc opt old v =
    let entry = common_entry action opt old in
    let valid =
      not (is_neg (re.regcomp action.str_from)) && not (is_neg (re.regcomp action.str_to)) in
    if is_numerical odesc.type
    then some (numerical_entry action entry v, true)
    else if is_string odesc.type
    then some (string_entry valid action entry v, valid)
    else none

module _ {D : Type 0} (sane : Driver D) (re : Regex) (multiple_actions : Bool) where
  -- Write the entry `n`, unless there is no space left in the array.
  unfoldable pub write_option : D → Thread → Action → Descriptor → ℕ → ℕ → Option (D × Thread)
  write_option d st action odesc opt n = if n == st.num_of_options then some (d, st) else do
    old ← get_elem? st.opts n
    let (v, d') = get_sane_option_value sane d opt
    (entry, counts) ← new_entry re action odesc opt old v
    opts ← store st.opts n entry
    some (
      d',
      record st {
        opts = opts;
        num_of_options_with_scripts =
            if (n == st.num_of_options_with_scripts) && counts
            then suc st.num_of_options_with_scripts
            else st.num_of_options_with_scripts;
      },
    )

  unfoldable pub install_action : D → Thread → Action → Descriptor → ℕ → Option (D × Thread)
  install_action d st action odesc opt = do
    n ← find_number DevOption.number st.num_of_options_with_scripts st.opts opt 0
    write_option d st action odesc opt
        (slot_for multiple_actions st.num_of_options st.num_of_options_with_scripts n)

  -- One round of the inner loop.
  unfoldable pub action_option : Action → ℕ → D → Thread → Option (D × Thread)
  action_option action opt d st = elim (candidate re action.filter (sane.descriptor d opt)) [
    | none ↦ some (d, st)
    | some odesc ↦ install_action d st action odesc opt
  ]

  -- for (opt = ...; opt < st->num_of_options; opt += 1), with the rounds left.
  unfoldable pub action_options : Action → ℕ → ℕ → D → Thread → Option (D × Thread)
  action_options action zero opt d st = some (d, st)
  action_options action (suc k) opt d st = do
    (d', st') ← action_option action opt d st
    action_options action k (suc opt) d' st'

  -- An action whose filter does not compile (`ret < 0`) is passed over.
  unfoldable pub one_action : Action → D → Thread → Option (D × Thread)
  one_action action d st =
      if is_neg (re.regcomp action.filter)
      then some (d, st)
      else action_options action (st.num_of_options - 1) 1 d st

  unfoldable pub all_actions : List Action → D → Thread → Option (D × Thread)
  all_actions [] d st = some (d, st)
  all_actions (action ∷ actions) d st = do
    (d', st') ← one_action action d st
    all_actions actions d' st'

  unfoldable pub sane_find_matching_options : D → Thread → Section → Option (D × Thread)
  sane_find_matching_options d st sec = all_actions sec.actions d st
