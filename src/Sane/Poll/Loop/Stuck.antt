-- ===== src/Sane/Poll/Loop/Stuck.antt =====
-- A polling thread of src/scanbd/sane.c that ended with its tables in use.
use scanbd.Prelude.{
  ℕ, ◌<◌, ◌≡◌, refl, sym, ap, ◌∙◌, subst, inl, inr, Bool, true, false, some, CString, Bool-cases,
  leb, leb→le, if◌then◌else◌, arith,
}
use mathlib.Core.Option.{some-injective}
use scanbd.Sane.Types.{Driver, Regex, Thread}
use scanbd.Sane.Poll.Environment.{Process}
use scanbd.Sane.Poll.Setup.{status_access_denied, Opener}
use scanbd.Sane.Poll.Loop.{
  Phase, checking, running, settling, sleeping, ended, Poller, after_reopen, next_step, poll_step,
  waits, fired, trigger_thread,
}
use scanbd.Sane.Poll.Loop.Reachable.{Step, own, external, device_changes, Reach, here, later}

module _ {D : Type 0} (sane : Driver D) (opener : Opener D) (re : Regex) (p : Process)
    (script_path : CString → CString) where
  -- The thread has ended with a trigger that nobody will act on.
  pub record IsStuck (s : Poller D) : Type 0 where
    pub over : s.phase ≡ ended
    pub set : s.thread.triggered ≡ true

  own_stuck :
      (phase : Phase) (d : D) (st : Thread) {t : Poller D}
      → phase ≡ ended
      → next_step sane opener re p script_path phase d st ≡ some t
      → record { device = d; thread = st; phase = phase } ≡ t
  unfolding next_step
  own_stuck (checking si) d st over e = cc
  own_stuck (running si script env) d st over e = cc
  own_stuck (settling si) d st over e = cc
  own_stuck sleeping d st over e = cc
  own_stuck ended d st over e = some-injective _ _ e

  fired_sets :
      (action : ℕ) (st st' : Thread) → trigger_thread action st ≡ fired st' → st'.triggered ≡ true
  unfolding trigger_thread
  fired_sets action st st' h = ground arith

  Step-IsStuck : {s t : Poller D} → Step sane opener re p script_path s t → IsStuck s → IsStuck t
  unfolding poll_step
  Step-IsStuck {s} (own e) stuck =
      subst IsStuck (own_stuck s.phase s.device s.thread stuck.over e) stuck
  Step-IsStuck (external {st = st} {st' = st'} action free h) stuck = record {
    over = stuck.over;
    set = fired_sets action st st' h;
  }
  Step-IsStuck (device_changes d') stuck = record { over = stuck.over; set = stuck.set }

  Reach-IsStuck : {s t : Poller D} → Reach sane opener re p script_path s t → IsStuck s → IsStuck t
  Reach-IsStuck here stuck = stuck
  Reach-IsStuck (later step rest) stuck = Reach-IsStuck rest (Step-IsStuck step stuck)

  -- What is done about an action in use, by whether a trigger is set.
  in_use :
      (action : ℕ) (st : Thread) (b : Bool)
      → action < st.num_of_options_with_scripts
      → st.triggered ≡ b
      → trigger_thread action st ≡ (
          if b
          then waits
          else fired (record st { triggered = true; triggered_option = some action }))
  unfolding trigger_thread
  in_use action st b h e = elim (Bool-cases (leb st.num_of_options_with_scripts action)) [
    | inl past ↦ absurd (omega (arith, h, leb→le st.num_of_options_with_scripts action past))
    | inr inside ↦ rw inside (
        ap
          (λ c.
            if c
            then waits
            else fired (record st { triggered = true; triggered_option = some action }))
          e)
  ]

  abbrev pub taken : ℕ → Thread → Thread
  taken action st = record st { triggered = true; triggered_option = some action }

  -- A device that is not opened again after a script because access to it is denied.
  denied :
      (si : ℕ) (d : D) (st : Thread)
      → (opener.open_device d st.dev_name).0 ≡ status_access_denied
      → poll_step sane opener re p script_path
          (record { device = d; thread = st; phase = settling si })
        ≡ some
            (record { device = (opener.open_device d st.dev_name).1; thread = st; phase = ended })
  unfolding poll_step next_step after_reopen
  denied si d st e =
      ap (λ status. some (after_reopen si status (opener.open_device d st.dev_name).1 st)) e

  -- When access to the device is denied after the script of an action, the thread ends with its table
  -- in use: sane_trigger_action still sets the trigger for an action in use; from then on,
  -- whatever happens, the trigger stays set, and each further call for an action in use waits
  -- for a reset that does not come. No trigger is set at first.
  pub ended-waits :
      (si : ℕ) (d : D) (st : Thread) (action again : ℕ) (t u : Poller D)
      → (opener.open_device d st.dev_name).0 ≡ status_access_denied
      → action < st.num_of_options_with_scripts
      → st.triggered ≡ false
      → poll_step sane opener re p script_path
          (record { device = d; thread = st; phase = settling si })
        ≡ some t
      → Reach sane opener re p script_path (record t { thread = taken action t.thread }) u
      → again < u.thread.num_of_options_with_scripts
      → (t.phase ≡ ended)
        × (trigger_thread action t.thread ≡ fired (taken action t.thread))
        × (u.thread.triggered ≡ true)
        × (trigger_thread again u.thread ≡ waits)
  ended-waits si d st action again t u refused h idle run reach inside =
      let same : record {
        device = (opener.open_device d st.dev_name).1;
        thread = st;
        phase = ended;
      }
          ≡ t =
        some-injective _ _ (sym (denied si d st refused) ∙ run) in
      let over : t.phase ≡ ended = sym (ap Poller.phase same) in
      let stuck = Reach-IsStuck reach (record { over = over; set = refl }) in
      (
        over,
        subst (λ x. trigger_thread action x ≡ fired (taken action x)) (ap Poller.thread same)
            (in_use action st false h idle),
        stuck.set,
        in_use again u.thread true inside stuck.set,
      )
