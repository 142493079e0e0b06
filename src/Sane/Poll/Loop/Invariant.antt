-- ===== src/Sane/Poll/Loop/Invariant.antt =====
-- When a state of the polling loop of sane_poll of src/scanbd/sane.c is valid.
use scanbd.Prelude.{ℕ, ◌≡◌, ◌⊎◌, Bool, true, false, Option, CString, All, take}
use scanbd.Sane.Types.{ValueType, Thread}
use scanbd.Sane.Poll.Environment.Functions.{button_option, all_print}
use scanbd.Sane.Match.Options.Bounds.{OptionsValid}
use scanbd.Sane.Match.Functions.Bounds.{FunctionsValid}
use scanbd.Sane.Poll.Check.Safe.{TriggerValid}
use scanbd.Sane.Poll.Setup.{status_good, status_access_denied, Opener}
use scanbd.Sane.Poll.Loop.{Phase, checking, running, settling, sleeping, ended, Poller}

-- The device is open while entries are checked, and closed from the start of an action until it is
-- opened again. While a script runs the trigger stands.
abbrev pub PhaseValid : Phase → Thread → Type 0
PhaseValid (checking si) st = st.is_open ≡ true
PhaseValid (running si script env) st = st.triggered ≡ true
PhaseValid (settling si) st = Unit {0}
PhaseValid sleeping st = st.is_open ≡ true
PhaseValid ended st = Unit {0}

-- While the option of an entry in use is checked, the value of each function is printed: no function's
-- option is a button, unless every action's is.
abbrev pub PrintsValid : (ℕ → Option ValueType) → Thread → Type 0
PrintsValid ty st =
    All
      (λ o.
        all_print (button_option (ty o.number)) ty st.num_of_options_with_functions st.functions
        ≡ true)
      (take st.num_of_options_with_scripts st.opts)

pub record LoopValid {D : Type 0} (multiple : Bool) (ty : ℕ → Option ValueType) (s : Poller D)
    : Type 0 where
  pub options : OptionsValid multiple ty s.thread
  pub functions : FunctionsValid ty s.thread
  pub printed : PrintsValid ty s.thread
  pub trigger : TriggerValid s.thread
  pub place : PhaseValid s.phase s.thread

-- A device that is opened again can be opened, or access to it is denied.
abbrev pub Reopens : {D : Type 0} → Opener D → Type 0
Reopens {D} opener =
    (d : D) (name : CString)
    → ((opener.open_device d name).0 ≡ status_good)
      ⊎ ((opener.open_device d name).0 ≡ status_access_denied)

-- The tables do not depend on the handle and the trigger.
abbrev pub with_trigger : Bool → Bool → Option ℕ → Thread → Thread
with_trigger opened triggered k st = record st {
  is_open = opened;
  triggered = triggered;
  triggered_option = k;
}

pub options_still :
    (multiple : Bool) (ty : ℕ → Option ValueType) (opened triggered : Bool) (k : Option ℕ)
    (st : Thread)
    → OptionsValid multiple ty st
    → OptionsValid multiple ty (with_trigger opened triggered k st)
options_still multiple ty opened triggered k st v = record {
  table = v.table;
  distinct = v.distinct;
  ready = v.ready;
}

pub functions_still :
    (ty : ℕ → Option ValueType) (opened triggered : Bool) (k : Option ℕ) (st : Thread)
    → FunctionsValid ty st
    → FunctionsValid ty (with_trigger opened triggered k st)
functions_still ty opened triggered k st v = record {
  table = v.table;
  distinct = v.distinct;
  accepted = v.accepted;
}

abbrev pub is_running : Phase → Bool
is_running (running si script env) = true
is_running _ = false
