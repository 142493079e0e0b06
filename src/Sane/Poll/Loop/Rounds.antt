-- ===== src/Sane/Poll/Loop/Rounds.antt =====
-- The rounds of the polling loop of sane_poll of src/scanbd/sane.c over the entries.
use scanbd.Prelude.{
  ℕ, suc, ◌<◌, ◌≡◌, refl, sym, ap, ◌∙◌, subst, inl, inr, Bool, true, false, Option, none, some,
  List, CString, Bool-cases, ltb-true, get_elem?, get_elem?-take, All, All-get, All-set, take,
  take-set, if◌then◌else◌,
}
use mathlib.Core.Option
use mathlib.Core.Option.{some-injective}
use scanbd.Sane.Types.{Descriptor, Driver, Regex, OptValue, ValueType, Thread, DevOption}
use scanbd.Sane.Match.Options.Entry.{HasTypes, is_ready, is_set, runs_script}
use scanbd.Sane.Match.Options.Bounds.{OptionsValid}
use scanbd.Sane.Match.Functions.Bounds.{FunctionsValid}
use scanbd.Sane.Poll.Check.{open_descriptor, check_option}
use scanbd.Sane.Poll.Check.Ready.{used_entry, descriptor_of, accepted_of, runs_of, is_set-some}
use scanbd.Sane.Poll.Check.Safe.{TriggerValid, checked, check_option-Safe, open_descriptor_run}
use scanbd.Sane.Poll.Environment.{Process, is_button, environment}
use scanbd.Sane.Poll.Environment.Functions.{button_option, all_print}
use scanbd.Sane.Poll.Environment.Parts.{has_all}
use scanbd.Sane.Poll.Environment.Complete.{environment_printed}
use scanbd.Sane.Poll.Setup.{Opener}
use scanbd.Sane.Poll.Loop.{checking, running, Poller, begin_action, act, act_on, poll_round}
use scanbd.Sane.Poll.Loop.Invariant.{
  LoopValid, PrintsValid, options_still, functions_still, is_running,
}

-- A check leaves the table of functions alone.
functions_checked :
    (ty : ℕ → Option ValueType) (st : Thread) (si : ℕ) (entry : DevOption) (value : OptValue)
    (fired : Bool)
    → FunctionsValid ty st
    → FunctionsValid ty (checked st si entry value fired)
functions_checked ty st si entry value fired v = record {
  table = v.table;
  distinct = v.distinct;
  accepted = v.accepted;
}

-- While the entry is checked, every function is printed.
prints_of :
    (ty : ℕ → Option ValueType) (st : Thread) (si : ℕ) (entry : DevOption)
    → PrintsValid ty st
    → si < st.num_of_options_with_scripts
    → get_elem? st.opts si ≡ some entry
    → all_print (button_option (ty entry.number)) ty st.num_of_options_with_functions st.functions
      ≡ true
prints_of ty st si entry pv h e =
    let count = st.num_of_options_with_scripts in
    All-get
      (λ o.
        all_print (button_option (ty o.number)) ty st.num_of_options_with_functions st.functions
        ≡ true)
      (take count st.opts) si pv (get_elem?-take count si st.opts h ∙ e)

prints_checked :
    (ty : ℕ → Option ValueType) (st : Thread) (si : ℕ) (entry : DevOption) (value : OptValue)
    (fired : Bool)
    → PrintsValid ty st
    → all_print (button_option (ty entry.number)) ty st.num_of_options_with_functions st.functions
      ≡ true
    → PrintsValid ty (checked st si entry value fired)
prints_checked ty st si entry value fired pv prints =
    let count = st.num_of_options_with_scripts in
    let prints_at : DevOption → Type 0 = λ o.
      all_print (button_option (ty o.number)) ty st.num_of_options_with_functions st.functions
      ≡ true in
    subst (All prints_at) (sym (take-set count si st.opts (record entry { value = value })))
      (All-set prints_at (take count st.opts) si (record entry { value = value }) prints pv)

module _ {D : Type 0} (sane : Driver D) (opener : Opener D) (re : Regex) (p : Process)
    (script_path : CString → CString) (multiple : Bool) (ty : ℕ → Option ValueType)
    (typed : HasTypes sane ty) (full : has_all p ≡ true) where
  -- The action of an entry in use can be started.
  pub begin_action-run :
      (polled : ValueType) (si : ℕ) (d : D) (st : Thread) (k : ℕ)
      → OptionsValid multiple ty st
      → FunctionsValid ty st
      → all_print (is_button polled) ty st.num_of_options_with_functions st.functions ≡ true
      → st.is_open ≡ true
      → k < st.num_of_options_with_scripts
      → (d' : D) × (script : CString) × (env : List CString) × (begin_action sane opener re p
            script_path polled si d st k
          ≡ some (record {
            device = d';
            thread = record st { is_open = false };
            phase = running si script env;
          }))
  unfolding begin_action
  begin_action-run polled si d st k v fv pp opened h =
      let ((env, d'), e) =
        is_set-some (environment sane p polled d st k)
          (environment_printed sane multiple ty p polled d st k typed v fv opened h pp ∙ full) in
      let (action, g, ready) = used_entry multiple ty st k v h in
      let runs : runs_script action.script ≡ true = runs_of (ty action.number) action ready in
      let (script, sc) = is_set-some action.script (runs_set action.script runs) in
      (
        opener.close_device d',
        script_path script,
        env,
        rw (ltb-true k st.num_of_options_with_scripts h, e, g) (rw (sc, rw sc at runs) refl),
      )
    where
      runs_set : (o : Option CString) → runs_script o ≡ true → is_set o ≡ true
      runs_set none q = cc
      runs_set (some s) q = refl

module _ {D : Type 0} (sane : Driver D) (opener : Opener D) (re : Regex) (p : Process)
    (script_path : CString → CString) (multiple : Bool) (ty : ℕ → Option ValueType)
    (typed : HasTypes sane ty) (full : has_all p ≡ true) where
  -- What is done after a check.
  act-LoopValid :
      (polled : ValueType) (si : ℕ) (d : D) (st : Thread)
      → OptionsValid multiple ty st
      → FunctionsValid ty st
      → PrintsValid ty st
      → all_print (is_button polled) ty st.num_of_options_with_functions st.functions ≡ true
      → TriggerValid st
      → st.is_open ≡ true
      → (s : Poller D) × (act sane opener re p script_path polled si d st ≡ some s)
        × LoopValid multiple ty s
        × (is_running s.phase ≡ st.triggered)
  unfolding act_on
  act-LoopValid polled si d st v fv pv pp tv opened = elim (Bool-cases st.triggered) [
    | inl t ↦
        let (k, e, h) = tv t in
        let (d', script, env, begun) =
          begin_action-run sane opener re p script_path multiple ty typed full polled si d st k v fv
            pp opened h in
        (
          record {
            device = d';
            thread = record st { is_open = false };
            phase = running si script env;
          },
          act_pending t e begun,
          record {
            options = options_still multiple ty false st.triggered st.triggered_option st v;
            functions = functions_still ty false st.triggered st.triggered_option st fv;
            printed = pv;
            trigger = tv;
            place = t;
          },
          sym t,
        )
    | inr t ↦ (
      record { device = d; thread = st; phase = checking (suc si) },
      act_idle t,
      record { options = v; functions = fv; printed = pv; trigger = tv; place = opened },
      sym t,
    )
  ]
    where
      act_pending :
          {k : ℕ} {s : Poller D}
          → st.triggered ≡ true
          → st.triggered_option ≡ some k
          → begin_action sane opener re p script_path polled si d st k ≡ some s
          → act sane opener re p script_path polled si d st ≡ some s
      act_pending t e begun =
          ap (act_on sane opener re p script_path polled si d st)
            (ap (λ b. if b then st.triggered_option else none) t ∙ e)
          ∙ begun

      act_idle :
          st.triggered ≡ false
          → act sane opener re p script_path polled si d st
            ≡ some (record { device = d; thread = st; phase = checking (suc si) })
      act_idle t =
          ap (act_on sane opener re p script_path polled si d st)
            (ap (λ b. if b then st.triggered_option else none) t)

  poll_round_run :
      (si : ℕ) (d : D) (st : Thread) {entry : DevOption} {odesc : Descriptor} {d' : D}
      {st' : Thread}
      → get_elem? st.opts si ≡ some entry
      → open_descriptor sane d st entry.number ≡ some odesc
      → check_option sane re d st si ≡ some (d', st')
      → runs_script entry.script ≡ true
      → poll_round sane opener re p script_path si d st
        ≡ act sane opener re p script_path odesc.type si d' st'
  unfolding poll_round
  poll_round_run si d st e o c r = rw (e, o, c, r) refl

  -- A round of the loop over the entries.
  pub poll_round-LoopValid :
      (si : ℕ) (d : D) (st : Thread)
      → OptionsValid multiple ty st
      → FunctionsValid ty st
      → PrintsValid ty st
      → TriggerValid st
      → st.is_open ≡ true
      → si < st.num_of_options_with_scripts
      → (s : Poller D) × (poll_round sane opener re p script_path si d st ≡ some s)
        × LoopValid multiple ty s
        × (st.triggered ≡ true → is_running s.phase ≡ true)
  poll_round-LoopValid si d st v fv pv tv opened h =
      let (d', entry, value, fired, e, c, v', tv') =
        check_option-Safe multiple ty sane re d st si typed v tv opened h in
      let (_, e', ready) = used_entry multiple ty st si v h in
      let known : is_ready (ty entry.number) entry ≡ true =
        subst (λ o. is_ready (ty o.number) o ≡ true) (some-injective _ _ (sym e' ∙ e)) ready in
      let (odesc, found) =
        descriptor_of sane d entry.number typed (accepted_of (ty entry.number) entry known) in
      let type_of_entry : ty entry.number ≡ some odesc.type =
        sym (typed d entry.number) ∙ ap (Option.map Descriptor.type) found in
      let (s, acted, valid, run) =
        act-LoopValid odesc.type si d' (checked st si entry value fired) v'
          (functions_checked ty st si entry value fired fv)
          (prints_checked ty st si entry value fired pv (prints_of ty st si entry pv h e))
          (subst
            (λ t.
              all_print (button_option t) ty st.num_of_options_with_functions st.functions ≡ true)
            type_of_entry (prints_of ty st si entry pv h e))
          tv' opened in
      (
        s,
        poll_round_run si d st e (open_descriptor_run sane d st entry.number opened found) c
              (runs_of (ty entry.number) entry known)
            ∙ acted,
        valid,
        λ t. run ∙ stays fired t,
      )
    where
      stays : (b : Bool) → st.triggered ≡ true → (if b then true else st.triggered) ≡ true
      stays true t = refl
      stays false t = t
