-- ===== src/Sane/Tests.antt =====
-- Runs of the model of src/scanbd/sane.c on a small scanner, and the theorems at these inputs.
use scanbd.Prelude.{
  ℕ, ◌+◌, ◌≡◌, ◌&&◌, refl, Bool, true, false, Option, none, some, List, [], ◌∷◌, lit, replicate,
  arith,
}
use scanbd.Sane.Types.{OptValue, type_int, Thread, DevOption, DevFunction}
use scanbd.Prelude.{store}
use scanbd.Sane.Value.Read.{get_sane_option_value}
use scanbd.Sane.Match.Search.{candidate, find_number}
use scanbd.Sane.Match.Functions.{
  sane_find_matching_functions, all_functions, one_function, function_options, function_option,
  install_function,
}
use scanbd.Sane.Match.Functions.Bounds.{Keeps, sane_find_matching_functions-Keeps}
use scanbd.Sane.Match.Functions.Override.{
  function_of, last_applying, sane_find_matching_functions-last,
}
use scanbd.Sane.Match.Options.{
  sane_find_matching_options, all_actions, one_action, action_options, action_option,
  install_action, write_option, slot_for, new_entry,
}
use scanbd.Sane.Match.Lookup.{lookup_number}
use mathlib.Core.Option
use scanbd.Sane.Match.Options.Bounds.{
  OptionsValid, option_numbers, Keeps as options_Keeps, sane_find_matching_options-Keeps,
}
use scanbd.Sane.Match.Options.Append.{Extends, sane_find_matching_options-Extends}
use scanbd.Sane.Poll.Check.{check_option, open_descriptor}
use scanbd.Sane.Poll.Check.Safe.{check_option-Safe}
use scanbd.Sane.Poll.Setup.{
  Start, empty_option, match_config, match_section, match_devices, sane_poll_start,
}
use scanbd.Sane.Poll.Setup.Ready.{IsReady, is_polling, sane_poll_start-IsReady}
use scanbd.Sane.Samples.{
  scan_desc, scanner, types, scanner_types, literal, global, config, opener, new_thread,
  new_functions, new_options, press_entry, ready_thread, ready_options, ready_functions, bare,
}
use scanbd.Sane.Match.Options.Entry.{is_set}
use scanbd.Sane.Poll.Environment.{environment}
use scanbd.Sane.Poll.Environment.Functions.{all_print}
use scanbd.Sane.Poll.Environment.Complete.{environment-has_all}
use scanbd.Sane.Poll.Environment.Parts.{has_all}
use scanbd.Sane.Poll.Environment.Unread.{function_string-unread}
use scanbd.Sane.Poll.Environment.{function_string}
use scanbd.Sane.Poll.Check.Safe.{TriggerValid, checked}
use scanbd.Sane.Value.Hash.{hash, poly}
use scanbd.Sane.Value.Hash.Poly.{hash-poly}
use scanbd.Prelude.{get_elem?, ulong_mod, ◌*◌, ◌%◌, ◌^◌}

sane_find_matching_functions-Keeps_example :
    Keeps types new_thread (sane_find_matching_functions scanner literal 0 new_thread global)
sane_find_matching_functions-Keeps_example =
    sane_find_matching_functions-Keeps scanner literal 0 types scanner_types new_thread global
      new_functions (omega arith)

sane_find_matching_functions-last_example :
    (st' : Thread) × (sane_find_matching_functions scanner literal 0 new_thread global ≡ some st')
    × (function_of 2 st' ≡ last_applying scanner literal 0 global.functions 2 none)
unfolding lookup_number
sane_find_matching_functions-last_example =
    sane_find_matching_functions-last scanner literal 0 types scanner_types 2 new_thread global
      new_functions (omega arith, omega arith)

sane_find_matching_options-Keeps_example :
    options_Keeps false types new_thread
      (sane_find_matching_options scanner literal false 0 new_thread global)
sane_find_matching_options-Keeps_example =
    sane_find_matching_options-Keeps scanner literal false types scanner_types (λ p. refl) 0
      new_thread global (new_options false) (omega arith)

sane_find_matching_options-Extends_example :
    (d' : ℕ) × (st' : Thread) × (sane_find_matching_options scanner literal true 0 new_thread global
      ≡ some (d', st'))
    × Extends new_thread st'
sane_find_matching_options-Extends_example =
    sane_find_matching_options-Extends scanner literal types scanner_types (λ p. refl) 0 new_thread
      global (new_options true) (omega arith)

sane_poll_start-IsReady_example :
    (r : Start ℕ) × (sane_poll_start scanner opener literal config 0 new_thread ≡ some r)
    × IsReady true types new_thread r
    × (is_polling r ≡ true)
sane_poll_start-IsReady_example =
    sane_poll_start-IsReady scanner literal config types scanner_types (λ p. refl) opener 0
      new_thread

-- Both presses of the button and the string trigger are entered; the later function wins.
config_tables :
    Option.map {B = List ℕ × Option DevFunction}
      (λ r. (option_numbers r.1, function_of 2 r.1))
      (match_config scanner literal config 0 new_thread)
    ≡ some (1 ∷ 3 ∷ 1 ∷ [], some (record { number = 2; env = some (lit "RESOLUTION") }))
unfolding match_config match_section match_devices sane_find_matching_options
    sane_find_matching_functions all_actions one_action action_options action_option install_action
    write_option slot_for new_entry all_functions one_function function_options function_option
    install_function candidate find_number store get_sane_option_value lookup_number
config_tables = refl

-- The entry is checked while the button is pressed, then once more.
abbrev pressed_thread : Thread
pressed_thread = record ready_thread {
  opts =
      record press_entry { value = record { num_value = 1; str = none; reg = none } }
      ∷ replicate 3 empty_option;
  triggered = true;
  triggered_option = some 0;
}

abbrev again_thread : Thread
again_thread = record pressed_thread { triggered = false; triggered_option = none }

check_option-Safe_example :
    (d' : ℕ) × (entry : DevOption) × (value : OptValue) × (fired : Bool) × (get_elem?
        ready_thread.opts 0
      ≡ some entry)
    × (check_option scanner literal 1 ready_thread 0
        ≡ some (d', checked ready_thread 0 entry value fired))
    × OptionsValid true types (checked ready_thread 0 entry value fired)
    × TriggerValid (checked ready_thread 0 entry value fired)
check_option-Safe_example =
    check_option-Safe true types scanner literal 1 ready_thread 0 scanner_types ready_options
      (λ t. cc) refl (omega arith)

environment-has_all_example : is_set (environment scanner bare type_int 0 ready_thread 0) ≡ (
    all_print false types ready_thread.num_of_options_with_functions ready_thread.functions
    && has_all bare)
environment-has_all_example =
    environment-has_all scanner true types bare type_int 0 ready_thread 0 scanner_types
      ready_options ready_functions refl (omega arith)

-- The function of the button, while the resolution is checked: the assertion fails.
function_string-unread_example :
    function_string scanner type_int 0 ready_thread
      (record { number = 1; env = some (lit "BUTTON") })
    ≡ none
unfolding open_descriptor
function_string-unread_example =
    function_string-unread scanner type_int 0 ready_thread
      (record { number = 1; env = some (lit "BUTTON") }) 0 {action = press_entry}
      {fdesc = scan_desc} (omega arith) (omega arith) refl refl refl

hash-poly_example : hash (lit "Gray") ≡ (5381 * 33 ^ 4 + poly (lit "Gray")) % ulong_mod
hash-poly_example = hash-poly (lit "Gray")
