-- ===== src/Sane/LoopTests.antt =====
-- The polling loop of src/scanbd/sane.c on a small scanner.
use scanbd.Prelude.{ℕ, ◌≡◌, refl, true, some, CString, lit, arith, ◌++◌}
use scanbd.Sane.Types.{Thread}
use scanbd.Sane.Samples.{scanner, literal, opener, ready_thread, bare}
use mathlib.Core.Option
use scanbd.Prelude.{store, decimal, [], ◌∷◌}
use scanbd.Sane.Match.Search.{find_number}
use scanbd.Sane.Value.Read.{get_sane_option_value, sane_option_value_init}
use scanbd.Sane.Poll.Check.{check_option, check_entry, fires, new_value, open_descriptor}
use scanbd.Sane.Poll.Environment.{
  environment, function_strings, function_string, function_value, assign, path_string, pwd_from,
  or_passwd, named_strings,
}
use scanbd.Sane.Poll.Setup.{status_access_denied, Opener}
use scanbd.Sane.Poll.Loop.{
  after_reopen, Phase, running, poll_round, act_on, begin_action, fired, Poller, checking, sleeping,
  ended, poll_step, next_step, trigger_thread, waits,
}
use scanbd.Sane.Poll.Loop.Reachable.{here}
use scanbd.Sane.Poll.Loop.Stuck.{ended-waits}

abbrev path : CString → CString
path s = lit "/etc/scanbd/" ++ s

abbrev asleep : Poller ℕ
asleep = record { device = 0; thread = ready_thread; phase = sleeping }

abbrev triggered_thread : Thread
triggered_thread = record ready_thread { triggered = true; triggered_option = some 0 }

abbrev awake : Poller ℕ
awake = record { device = 0; thread = triggered_thread; phase = checking 0 }

-- Access to the device is denied when it is opened again.
abbrev denying : Opener ℕ
denying = record opener { open_device = λ d name. (status_access_denied, d) }

abbrev over : Poller ℕ
over = record { device = 0; thread = triggered_thread; phase = ended }

ended-waits_example :
    (ended ≡ ended)
    × (trigger_thread 0 ready_thread ≡ fired triggered_thread)
    × (triggered_thread.triggered ≡ true)
    × (trigger_thread 0 triggered_thread ≡ waits)
unfolding poll_step next_step after_reopen
ended-waits_example =
    ended-waits scanner denying literal bare path 0 0 ready_thread 0 0
      (record { device = 0; thread = ready_thread; phase = ended }) over refl (omega arith) refl
      refl here (omega arith)

-- A press of the button starts the script, with the environment that the script then sees.
press_runs :
    Option.map {B = Phase} Poller.phase (
      poll_step scanner opener literal bare path
        (record { device = 1; thread = ready_thread; phase = checking 0 }))
    ≡ some (
        running 0 (lit "/etc/scanbd/scan.sh") (
          lit "BUTTON=0"
          ∷ lit "PATH=/usr/sbin:/usr/bin:/sbin:/bin"
          ∷ lit "PWD=/"
          ∷ lit "USER=saned"
          ∷ lit "HOME=/var/lib/saned"
          ∷ lit "SCANBD_DEVICE=test:0"
          ∷ lit "SCANBD_ACTION=press"
          ∷ []))
unfolding poll_step next_step poll_round act_on begin_action check_option check_entry fires
    new_value find_number open_descriptor store get_sane_option_value environment function_strings
    function_string function_value assign path_string pwd_from or_passwd named_strings
    sane_option_value_init decimal
press_runs = refl
