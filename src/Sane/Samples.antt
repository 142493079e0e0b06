-- ===== src/Sane/Samples.antt =====
-- A scanner, its configuration and the thread that polls it, for runs of the model of
-- src/scanbd/sane.c.
use scanbd.Prelude.{
  ℕ, zero, suc, ◌≡◌, refl, Bool, true, false, Option, none, some, [], ◌∷◌, lit, pos, replicate,
  str_eq, arith,
}
use scanbd.Sane.Types.{
  Descriptor, Driver, Regex, ValueType, type_int, type_string, type_button, Thread, DevOption,
  Action, Function, Section,
}
use scanbd.Sane.Match.Functions.Bounds.{FunctionsValid}
use mathlib.Core.Option
use scanbd.Sane.Match.Options.Bounds.{OptionsValid}
use scanbd.Sane.Poll.Setup.{Opener, Config, status_good, empty_option, empty_function}
use scanbd.Sane.Poll.Environment.{Process}

-- A scanner with a button (option 1), a resolution (option 2) and a mode (option 3), whose state
-- is the button's.
abbrev pub scan_desc : Descriptor
scan_desc = record { name = some (lit "scan"); type = type_button; size = 4; active = true }

abbrev pub resolution_desc : Descriptor
resolution_desc = record {
  name = some (lit "resolution");
  type = type_int;
  size = 4;
  active = true;
}

abbrev pub mode_desc : Descriptor
mode_desc = record { name = some (lit "mode"); type = type_string; size = 8; active = true }

abbrev pub desc : ℕ → Option Descriptor
desc zero = none
desc (suc zero) = some scan_desc
desc (suc (suc zero)) = some resolution_desc
desc (suc (suc (suc zero))) = some mode_desc
desc (suc (suc (suc (suc n)))) = none

abbrev pub scanner : Driver ℕ
scanner = record {
  descriptor = λ d n. desc n;
  read_word = λ d n. (some d, d);
  read_string = λ d n. ((true, lit "Color"), d);
}

abbrev pub types : ℕ → Option ValueType
types zero = none
types (suc zero) = some type_button
types (suc (suc zero)) = some type_int
types (suc (suc (suc zero))) = some type_string
types (suc (suc (suc (suc n)))) = none

pub scanner_types : (d n : ℕ) → Option.map Descriptor.type (scanner.descriptor d n) ≡ types n
scanner_types d zero = refl
scanner_types d (suc zero) = refl
scanner_types d (suc (suc zero)) = refl
scanner_types d (suc (suc (suc zero))) = refl
scanner_types d (suc (suc (suc (suc n)))) = refl

-- Patterns that match themselves alone.
abbrev pub literal : Regex
literal = record { regcomp = λ p. pos 0; matches = str_eq }

abbrev pub press : Action
press = record {
  title = some (lit "press");
  filter = lit "scan";
  script = some (lit "scan.sh");
  num_from = pos 0;
  num_to = pos 1;
  str_from = lit "";
  str_to = lit "";
}

abbrev pub recolor : Action
recolor = record press {
  title = some (lit "recolor");
  filter = lit "mode";
  script = none;
  str_from = lit "Gray";
  str_to = lit "Color";
}

abbrev pub export_resolution : Function
export_resolution = record { title = none; filter = lit "resolution"; env = lit "DPI" }

abbrev pub export_again : Function
export_again = record export_resolution { env = lit "RESOLUTION" }

abbrev pub global : Section
global = record {
  title = none;
  actions = press ∷ recolor ∷ press ∷ [];
  functions = export_resolution ∷ export_again ∷ [];
}

abbrev pub config : Config
config = record { global = global; devices = []; multiple_actions = true; timeout = pos 100 }

abbrev pub opener : Opener ℕ
opener = record {
  open_device = λ d name. (status_good, d);
  close_device = λ d. d;
  option_count = λ d. (some 4, d);
}

abbrev pub new_thread : Thread
new_thread = record {
  triggered = false;
  triggered_option = none;
  dev_name = lit "test:0";
  num_of_options = 4;
  is_open = true;
  opts = replicate 4 empty_option;
  num_of_options_with_scripts = 0;
  functions = replicate 4 empty_function;
  num_of_options_with_functions = 0;
}

pub new_functions : FunctionsValid types new_thread
new_functions = record {
  table = record { array = refl; used = omega arith; ranged = tt };
  distinct = tt;
  accepted = tt;
}

pub new_options : (multiple : Bool) → OptionsValid multiple types new_thread
new_options multiple = record {
  table = record { array = refl; used = omega arith; ranged = tt };
  distinct = λ _. tt;
  ready = tt;
}

-- A thread with one press of the button entered, whose value was 0.
abbrev pub press_entry : DevOption
press_entry = record empty_option {
  number = 1;
  to_value = record { num_value = 1; str = none; reg = none };
  script = some (lit "scan.sh");
  action_name = some (lit "press");
}

abbrev pub ready_thread : Thread
ready_thread = record new_thread {
  opts = press_entry ∷ replicate 3 empty_option;
  num_of_options_with_scripts = 1;
  functions = record { number = 1; env = some (lit "BUTTON") } ∷ replicate 3 empty_function;
  num_of_options_with_functions = 1;
}

pub ready_options : OptionsValid true types ready_thread
ready_options = record {
  table = record { array = refl; used = omega arith; ranged = (omega arith, tt) };
  distinct = λ one. cc;
  ready = (refl, tt);
}

pub ready_functions : FunctionsValid types ready_thread
ready_functions = record {
  table = record { array = refl; used = omega arith; ranged = (omega arith, tt) };
  distinct = (tt, tt);
  accepted = (refl, tt);
}

-- A process without any of the four variables.
abbrev pub bare : Process
bare = record {
  getenv = λ name. none;
  getcwd = some (lit "/");
  passwd = some (lit "saned", lit "/var/lib/saned");
  device_env = some (lit "SCANBD_DEVICE");
  action_env = some (lit "SCANBD_ACTION");
}
