-- ===== src/Sane/Poll/Setup/Ready.antt =====
-- The polling thread after the start of sane_poll of src/scanbd/sane.c.
use scanbd.Prelude.{
  ◌&&◌, ℕ, zero, suc, ◌<◌, ◌≡◌, refl, ap, ◌∙◌, inl, inr, Bool, true, false, Option, none, some,
  List, [], ◌∷◌, pos, negsuc, ℤ, Bool-cases, arith,
}
use scanbd.Sane.Types.{Driver, Regex, ValueType, Thread, Section}
use scanbd.Sane.Match.Options.Entry.{HasTypes, NeverNegative}
use scanbd.Sane.Match.Options.Bounds.{sane_find_matching_options-Keeps}
use scanbd.Sane.Match.Functions.Bounds.{FunctionsValid, sane_find_matching_functions-Keeps}
use scanbd.Sane.Poll.Setup.{
  Status, status_good, status_access_denied, status_other, Opener, DeviceSection, Config, Start,
  polling, exited, allocate, timeout_of, match_section, match_devices, match_config, start_with,
  after_open, sane_poll_start,
}
use scanbd.Sane.Poll.Setup.Tables.{
  TablesValid, SameDevice, SameDevice-trans, SameDevice-refl, options_same, functions_same,
  functions_moved, options_moved, allocate-TablesValid,
}

timeout_of-positive : (t : ℤ) → 0 < timeout_of t
unfolding timeout_of
timeout_of-positive (pos zero) = omega arith
timeout_of-positive (pos (suc n)) = omega arith
timeout_of-positive (negsuc n) = omega arith

abbrev pub is_polling : {D : Type 0} → Start D → Bool
is_polling (polling d st timeout) = true
is_polling (exited d st) = false

abbrev has_options : Option ℕ → Bool
has_options (some (suc n)) = true
has_options _ = false

abbrev is_good : Status → Bool
is_good status_good = true
is_good _ = false

-- The device can be opened and has options.
abbrev pub can_poll : {D : Type 0} → Opener D → D → Thread → Bool
can_poll opener d st =
    let (status, d') = opener.open_device d st.dev_name in
    is_good status && has_options (opener.option_count d').0

-- A thread that polls is open, with valid tables, a positive timeout and the trigger it had.
abbrev pub IsReady : {D : Type 0} → Bool → (ℕ → Option ValueType) → Thread → Start D → Type 0
IsReady multiple ty st (exited d st') = Unit {0}
IsReady multiple ty st (polling d st' timeout) =
    TablesValid multiple ty st'
    × (st'.is_open ≡ true)
    × (0 < timeout)
    × (st'.dev_name ≡ st.dev_name)
    × (st'.triggered ≡ st.triggered)
    × (st'.triggered_option ≡ st.triggered_option)

module _ {D : Type 0} (sane : Driver D) (re : Regex) (cfg : Config) (ty : ℕ → Option ValueType)
    (typed : HasTypes sane ty) (compiles : NeverNegative re) where
  abbrev Valid : Thread → Type 0
  Valid = TablesValid cfg.multiple_actions ty

  -- A function on the device and a thread with valid tables returns, and the tables stay valid.
  abbrev Keeps : Thread → Option (D × Thread) → Type 0
  Keeps st r = (d' : D) × (st' : Thread) × (r ≡ some (d', st')) × Valid st' × SameDevice st st'

  match_section-Keeps :
      (sec : Section) (d : D) (st : Thread)
      → Valid st
      → Keeps st (match_section sane re cfg sec d st)
  unfolding match_section
  match_section-Keeps sec d st v =
      let (d', st₁, e, v₁, f) =
        sane_find_matching_options-Keeps sane re cfg.multiple_actions ty typed compiles d st sec
          v.options v.some_option in
      let kept : FunctionsValid ty st₁ = functions_moved st st₁ f v.functions in
      let (st₂, e', v₂, f') =
        sane_find_matching_functions-Keeps sane re d' ty typed st₁ sec kept
          (omega (arith, v.some_option, ap Thread.num_of_options f)) in
      (
        d',
        st₂,
        rw (e, e') refl,
        record {
          some_option =
              omega (arith, v.some_option, ap Thread.num_of_options f, ap Thread.num_of_options f');
          options = options_moved st₁ st₂ f' v₁;
          functions = v₂;
        },
        SameDevice-trans st st₁ st₂ (options_same st st₁ f) (functions_same st₁ st₂ f'),
      )

  match_devices-Keeps :
      (locs : List DeviceSection) (d : D) (st : Thread)
      → Valid st
      → Keeps st (match_devices sane re cfg locs d st)
  unfolding match_devices
  match_devices-Keeps [] d st v = (d, st, refl, v, SameDevice-refl st)
  match_devices-Keeps (loc ∷ locs) d st v = elim (Bool-cases (re.matches loc.filter st.dev_name)) [
    | inl m ↦
        let (d₁, st₁, e₁, v₁, s₁) = match_section-Keeps loc.section d st v in
        let (d₂, st₂, e₂, v₂, s₂) = match_devices-Keeps locs d₁ st₁ v₁ in
        (d₂, st₂, rw (compiles loc.filter, m, e₁) e₂, v₂, SameDevice-trans st st₁ st₂ s₁ s₂)
    | inr m ↦
        let (d₂, st₂, e₂, v₂, s₂) = match_devices-Keeps locs d st v in
        (d₂, st₂, rw (compiles loc.filter, m) e₂, v₂, s₂)
  ]

  pub match_config-Keeps :
      (d : D) (st : Thread) → Valid st → Keeps st (match_config sane re cfg d st)
  unfolding match_config
  match_config-Keeps d st v =
      let (d₁, st₁, e₁, v₁, s₁) = match_section-Keeps cfg.global d st v in
      let (d₂, st₂, e₂, v₂, s₂) = match_devices-Keeps cfg.devices d₁ st₁ v₁ in
      (d₂, st₂, rw e₁ e₂, v₂, SameDevice-trans st st₁ st₂ s₁ s₂)

  start_with-IsReady :
      (d : D) (st : Thread) (count : Option ℕ)
      → st.is_open ≡ true
      → (r : Start D) × (start_with sane re cfg d st count ≡ some r)
        × IsReady cfg.multiple_actions ty st r
        × (is_polling r ≡ has_options count)
  unfolding start_with allocate
  start_with-IsReady d st none opened = (exited d st, refl, tt, refl)
  start_with-IsReady d st (some zero) opened =
      (exited d (record st { num_of_options = 0 }), refl, tt, refl)
  start_with-IsReady d st (some (suc n)) opened =
      let (d', st', e, v, (_, name, same, idle, option)) =
        match_config-Keeps d (allocate (suc n) st)
          (allocate-TablesValid cfg.multiple_actions ty n st) in
      (
        polling d' st' (timeout_of cfg.timeout),
        rw e refl,
        (v, same ∙ opened, timeout_of-positive cfg.timeout, name, idle, option),
        refl,
      )

  after_open-IsReady :
      (opener : Opener D) (status : Status) (d : D) (st : Thread)
      → (r : Start D) × (after_open sane opener re cfg status d st ≡ some r)
        × IsReady cfg.multiple_actions ty st r
        × (is_polling r ≡ (is_good status && has_options (opener.option_count d).0))
  unfolding after_open
  after_open-IsReady opener status_access_denied d st = (exited d st, refl, tt, refl)
  after_open-IsReady opener status_other d st = (exited d st, refl, tt, refl)
  after_open-IsReady opener status_good d st =
      let (count, d') = opener.option_count d in
      start_with-IsReady d' (record st { is_open = true; num_of_options = 0 }) count refl

  -- The start of sane_poll never faults. The thread polls exactly if the device can be opened
  -- and has options; then it polls the opened device, with valid tables, a positive timeout and
  -- the trigger that it had. The conditions are that the type of an option does not change while
  -- its device is open, and that regcomp returns no negative number.
  pub sane_poll_start-IsReady :
      (opener : Opener D) (d : D) (st : Thread)
      → (r : Start D) × (sane_poll_start sane opener re cfg d st ≡ some r)
        × IsReady cfg.multiple_actions ty st r
        × (is_polling r ≡ can_poll opener d st)
  unfolding sane_poll_start
  sane_poll_start-IsReady opener d st =
      let (status, d') = opener.open_device d st.dev_name in after_open-IsReady opener status d' st
