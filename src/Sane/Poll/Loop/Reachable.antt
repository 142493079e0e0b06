-- ===== src/Sane/Poll/Loop/Reachable.antt =====
-- Every state that the polling loop of sane_poll of src/scanbd/sane.c reaches, whatever the user of
-- the device and sane_trigger_action do in between.
use scanbd.Prelude.{
  ℕ, ◌≡◌, ◌⊎◌, refl, inl, inr, Bool, true, false, Option, none, some, CString, Bool-cases, ltb,
  ltb→lt,
}
use scanbd.Sane.Types.{Driver, Regex, ValueType, Thread}
use scanbd.Sane.Match.Options.Entry.{HasTypes}
use scanbd.Sane.Match.Options.Bounds.{OptionsValid}
use scanbd.Sane.Match.Functions.Bounds.{FunctionsValid}
use scanbd.Sane.Poll.Check.{handled}
use scanbd.Sane.Poll.Check.Safe.{TriggerValid}
use scanbd.Sane.Poll.Environment.{Process}
use scanbd.Sane.Poll.Environment.Parts.{has_all}
use scanbd.Sane.Poll.Setup.{Status, status_good, status_access_denied, status_other, Opener}
use scanbd.Sane.Poll.Loop.{
  Phase, checking, running, settling, sleeping, ended, Poller, next_step, poll_step, after_reopen,
  fired, trigger_thread, mutex_free,
}
use scanbd.Sane.Poll.Loop.Rounds.{poll_round-LoopValid}
use scanbd.Sane.Poll.Loop.Invariant.{
  LoopValid, PrintsValid, PhaseValid, Reopens, options_still, functions_still,
}

module _ {D : Type 0} (sane : Driver D) (opener : Opener D) (re : Regex) (p : Process)
    (script_path : CString → CString) where
  -- A step of the thread, a trigger from another thread, a change at the device.
  pub data Step : Poller D → Poller D → Type 0 where
    own : {s s' : Poller D} → poll_step sane opener re p script_path s ≡ some s' → Step s s'
    external :
        {d : D} {st st' : Thread} {phase : Phase} (action : ℕ)
        → mutex_free phase ≡ true
        → trigger_thread action st ≡ fired st'
        → Step
            (record { device = d; thread = st; phase = phase })
            (record { device = d; thread = st'; phase = phase })
    device_changes :
        {d : D} {st : Thread} {phase : Phase} (d' : D)
        → Step
            (record { device = d; thread = st; phase = phase })
            (record { device = d'; thread = st; phase = phase })

  pub data Reach : Poller D → Poller D → Type 0 where
    here : {s : Poller D} → Reach s s
    later : {s t u : Poller D} → Step s t → Reach t u → Reach s u

  module _ (multiple : Bool) (ty : ℕ → Option ValueType) (typed : HasTypes sane ty)
      (full : has_all p ≡ true) (reopens : Reopens opener) where
    after_reopen-LoopValid :
        (si : ℕ) (status : Status) (d : D) (st : Thread)
        → (status ≡ status_good) ⊎ (status ≡ status_access_denied)
        → OptionsValid multiple ty st
        → FunctionsValid ty st
        → PrintsValid ty st
        → TriggerValid st
        → LoopValid multiple ty (after_reopen si status d st)
    unfolding after_reopen
    after_reopen-LoopValid si status_good d st h v fv pv tv = record {
      options = options_still multiple ty true st.triggered st.triggered_option st v;
      functions = functions_still ty true st.triggered st.triggered_option st fv;
      printed = pv;
      trigger = tv;
      place = refl;
    }
    after_reopen-LoopValid si status_access_denied d st h v fv pv tv = record {
      options = v;
      functions = fv;
      printed = pv;
      trigger = tv;
      place = tt;
    }
    after_reopen-LoopValid si status_other d st (inl h) v fv pv tv = cc
    after_reopen-LoopValid si status_other d st (inr h) v fv pv tv = cc

    pub next_step-LoopValid :
        (phase : Phase) (d : D) (st : Thread)
        → OptionsValid multiple ty st
        → FunctionsValid ty st
        → PrintsValid ty st
        → TriggerValid st
        → PhaseValid phase st
        → (s : Poller D) × (next_step sane opener re p script_path phase d st ≡ some s)
          × LoopValid multiple ty s
    unfolding next_step
    next_step-LoopValid (checking si) d st v fv pv tv place =
        elim (Bool-cases (ltb si st.num_of_options_with_scripts)) [
          | inl lt ↦
              let (s, e, valid, _) =
                poll_round-LoopValid sane opener re p script_path multiple ty typed full si d st v
                  fv pv tv place (ltb→lt si st.num_of_options_with_scripts lt) in
              (s, rw lt e, valid)
          | inr end ↦ (
            record { device = d; thread = st; phase = sleeping },
            rw end refl,
            record { options = v; functions = fv; printed = pv; trigger = tv; place = place },
          )
        ]
    next_step-LoopValid (running si script env) d st v fv pv tv place = (
      record { device = d; thread = handled st; phase = settling si },
      refl,
      record {
        options = options_still multiple ty st.is_open false none st v;
        functions = functions_still ty st.is_open false none st fv;
        printed = pv;
        trigger = λ t. cc;
        place = tt;
      },
    )
    next_step-LoopValid (settling si) d st v fv pv tv place =
        let (status, d') = opener.open_device d st.dev_name in
        (
          after_reopen si status d' st,
          refl,
          after_reopen-LoopValid si status d' st (reopens d st.dev_name) v fv pv tv,
        )
    next_step-LoopValid sleeping d st v fv pv tv place = (
      record { device = d; thread = st; phase = checking 0 },
      refl,
      record { options = v; functions = fv; printed = pv; trigger = tv; place = place },
    )
    next_step-LoopValid ended d st v fv pv tv place = (
      record { device = d; thread = st; phase = ended },
      refl,
      record { options = v; functions = fv; printed = pv; trigger = tv; place = tt },
    )

    pub poll_step-LoopValid :
        (s : Poller D)
        → LoopValid multiple ty s
        → (s' : Poller D) × (poll_step sane opener re p script_path s ≡ some s')
          × LoopValid multiple ty s'
    unfolding poll_step
    poll_step-LoopValid s valid =
        next_step-LoopValid s.phase s.device s.thread valid.options valid.functions valid.printed
          valid.trigger valid.place
