-- ===== src/Sane/Poll/Setup.antt =====
-- The start of sane_poll of src/scanbd/sane.c: open the device, allocate its tables, and fill them
-- from the configuration. `none` is a fault.
pub mod Tables
pub mod Ready
use scanbd.Prelude.{
  ℕ, zero, suc, ◌>>=◌, if◌then◌else◌, Bool, true, false, Option, none, some, List, [], ◌∷◌, CString,
  ℤ, pos, negsuc, is_neg, replicate,
}
use scanbd.Sane.Types.{Driver, Regex, OptValue, Thread, DevOption, DevFunction, Section}
use scanbd.Sane.Value.Read.{sane_option_value_init}
use scanbd.Sane.Match.Functions.{sane_find_matching_functions}
use scanbd.Sane.Match.Options.{sane_find_matching_options}

-- SANE_Status, as far as sane.c tells its values apart.
pub data Status : Type 0 where
  status_good status_access_denied status_other : Status

-- The SANE calls that open and close a device and read option 0, the number of its options.
pub record Opener (D : Type 0) : Type 0 where
  pub open_device : D → CString → Status × D
  pub close_device : D → D
  pub option_count : D → Option ℕ × D

-- A device section of the configuration.
pub record DeviceSection : Type 0 where
  pub filter : CString
  pub section : Section

-- The configuration, as far as sane_poll reads it.
pub record Config : Type 0 where
  pub global : Section
  pub devices : List DeviceSection
  pub multiple_actions : Bool
  pub timeout : ℤ

-- An entry of the zeroed array st->opts.
abbrev pub empty_option : DevOption
unfolding sane_option_value_init
empty_option = record {
  number = 0;
  from_value = sane_option_value_init;
  to_value = sane_option_value_init;
  value = sane_option_value_init;
  script = none;
  action_name = none;
}

abbrev pub empty_function : DevFunction
empty_function = record { number = 0; env = none }

-- The thread with new tables for `n` options.
unfoldable pub allocate : ℕ → Thread → Thread
allocate n st = record st {
  num_of_options = n;
  opts = replicate n empty_option;
  num_of_options_with_scripts = 0;
  functions = replicate n empty_function;
  num_of_options_with_functions = 0;
}

-- C_TIMEOUT_DEF replaces a timeout that is not positive.
unfoldable pub timeout_of : ℤ → ℕ
timeout_of (pos zero) = 500
timeout_of (pos (suc n)) = suc n
timeout_of (negsuc n) = 500

-- What becomes of a polling thread: it polls, or it exits.
pub data Start (D : Type 0) : Type 0 where
  polling : D → Thread → ℕ → Start D
  exited : D → Thread → Start D

module _ {D : Type 0} (sane : Driver D) (re : Regex) (cfg : Config) where
  -- The actions and functions of a section.
  unfoldable pub match_section : Section → D → Thread → Option (D × Thread)
  match_section sec d st = do
    (d', st') ← sane_find_matching_options sane re cfg.multiple_actions d st sec
    st'' ← sane_find_matching_functions sane re d' st' sec
    some (d', st'')

  -- The loop over the device sections whose filter selects the device.
  unfoldable pub match_devices : List DeviceSection → D → Thread → Option (D × Thread)
  match_devices [] d st = some (d, st)
  match_devices (loc ∷ locs) d st = do
    (d', st') ←
        if is_neg (re.regcomp loc.filter)
        then some (d, st)
        else if re.matches loc.filter st.dev_name
        then match_section loc.section d st
        else some (d, st)
    match_devices locs d' st'

  -- The tables of a device with options.
  unfoldable pub match_config : D → Thread → Option (D × Thread)
  match_config d st = do (d', st') ← match_section cfg.global d st; match_devices cfg.devices d' st'

  -- The tables are filled once the number of options is known.
  unfoldable pub start_with : D → Thread → Option ℕ → Option (Start D)
  start_with d st none = some (exited d st)
  start_with d st (some zero) = some (exited d (record st { num_of_options = 0 }))
  start_with d st (some (suc n)) = do
    (d', st') ← match_config d (allocate (suc n) st)
    some (polling d' st' (timeout_of cfg.timeout))

module _ {D : Type 0} (sane : Driver D) (opener : Opener D) (re : Regex) (cfg : Config) where
  unfoldable pub after_open : Status → D → Thread → Option (Start D)
  after_open status_good d st =
      let (count, d') = opener.option_count d in
      start_with sane re cfg d' (record st { is_open = true; num_of_options = 0 }) count
  after_open _ d st = some (exited d st)

  unfoldable pub sane_poll_start : D → Thread → Option (Start D)
  unfolding after_open
  sane_poll_start d st =
      let (status, d') = opener.open_device d st.dev_name in after_open status d' st
