-- ===== src/Wrapper/Poll/Valid.antt =====
-- The table and the trigger of a polling thread in scbtn_poll of src/scanbd/scanbuttond_wrapper.c.
use scanbd.Prelude.{
  ℕ, suc, ◌≤◌, ◌<◌, ◌≡◌, refl, sym, ap, subst, ◌∙◌, inl, inr, ◌==◌, ◌&&◌, ltb-true, ◌||◌,
  if◌then◌else◌, Bool, true, false, Bool-cases, Option, none, some, List, [], ◌∷◌, length, take,
  All, CString, ℤ, arith, set, store-set, get_elem?, get_elem?-lt, get_elem?-take, take-set,
  All-set, All-get, length-set,
}
use scanbd.Sane.Match.Options.Entry.{runs_script}
use scanbd.Sane.Poll.Environment.{
  Process, assign, path_string, or_null, user_string, home_string, pwd_strings, named_strings,
}
use scanbd.Dbus.Hook.{hook_environment}
use scanbd.Scanbuttond.Meta.{Module}
use scanbd.Wrapper.Match.{ScbtnOption}
use scanbd.Wrapper.Poll.{
  ScbtnPoller, checking, running, check_button, is_pressed, value_of, pending_action, closed_dev,
  begin_script, act_on_button, update_entry, scbtn_round,
}

-- What the environment of a script is made of is known to the process.
pub record IsKnown (p : Process) : Type 0 where
  pub user : CString
  pub user_known : user_string p ≡ some user
  pub home : CString
  pub home_known : home_string p ≡ some home
  pub directory : CString
  pub directory_known : pwd_strings p ≡ directory ∷ []
  pub device_name : CString
  pub device_known : p.device_env ≡ some device_name
  pub action_name : CString
  pub action_known : p.action_env ≡ some action_name

environment_known :
    (p : Process) (action dev : CString)
    → IsKnown p
    → (env : List CString) × (hook_environment p action dev ≡ some env)
unfolding hook_environment named_strings
environment_known p action dev k = (
  path_string p
      ∷ k.directory
      ∷ k.user
      ∷ k.home
      ∷ assign k.device_name dev
      ∷ assign k.action_name action
      ∷ [],
  rw (k.user_known, k.home_known, k.directory_known, k.device_known, k.action_known) refl,
)

abbrev pub HasScript : ScbtnOption → Type 0
HasScript entry = runs_script entry.script ≡ true

-- The entries in use lie in the array and have a script; a pending trigger names one of them.
pub record ScbtnValid {S : Type 0} (s : ScbtnPoller S) : Type 0 where
  pub used : s.thread.num_of_options_with_scripts ≤ length s.thread.opts
  pub scripts : All HasScript (take s.thread.num_of_options_with_scripts s.thread.opts)
  pub trigger :
      s.triggered ≡ true
      → (k : ℕ) × (s.triggered_option ≡ some k) × (k < s.thread.num_of_options_with_scripts)

script_of_entry :
    (s : Option CString) → runs_script s ≡ true → (script : CString) × (s ≡ some script)
script_of_entry none h = absurd (ground (arith, h))
script_of_entry (some script) h = (script, refl)

pub entry_of :
    {S : Type 0} (s : ScbtnPoller S) (k : ℕ)
    → ScbtnValid s
    → k < s.thread.num_of_options_with_scripts
    → (entry : ScbtnOption) × (get_elem? s.thread.opts k ≡ some entry) × HasScript entry
entry_of s k v h =
    let count = s.thread.num_of_options_with_scripts in
    let (entry, e) = get_elem?-lt s.thread.opts k (omega (arith, h, v.used)) in
    (
      entry,
      e,
      All-get HasScript (take count s.thread.opts) k v.scripts
          (get_elem?-take count k s.thread.opts h ∙ e),
    )

-- The thread after an entry has been updated.
abbrev pub updated : {S : Type 0} → ScbtnPoller S → ℕ → ScbtnOption → Bool → ScbtnPoller S
updated s si entry fires = record s {
  thread = record s.thread { opts = set s.thread.opts si entry };
  triggered = s.triggered || fires;
  triggered_option = if fires then some si else s.triggered_option;
}

updated_trigger :
    {S : Type 0} (s : ScbtnPoller S) (si : ℕ) (entry : ScbtnOption) (fires : Bool)
    → ScbtnValid s
    → si < s.thread.num_of_options_with_scripts
    → (updated s si entry fires).triggered ≡ true
    → (k : ℕ) × ((updated s si entry fires).triggered_option ≡ some k)
      × (k < s.thread.num_of_options_with_scripts)
updated_trigger s si entry true v h t = (si, refl, h)
updated_trigger s si entry false v h t =
    let before : s.triggered ≡ true = ground (arith, t) in v.trigger before

updated-ScbtnValid :
    {S : Type 0} (s : ScbtnPoller S) (si : ℕ) (entry : ScbtnOption) (fires : Bool)
    → ScbtnValid s
    → si < s.thread.num_of_options_with_scripts
    → HasScript entry
    → ScbtnValid (updated s si entry fires)
updated-ScbtnValid s si entry fires v h script =
    let count = s.thread.num_of_options_with_scripts in
    record {
      used = omega (arith, v.used, length-set s.thread.opts si entry);
      scripts =
          subst (All HasScript) (sym (take-set count si s.thread.opts entry))
            (All-set HasScript (take count s.thread.opts) si entry script v.scripts);
      trigger = updated_trigger s si entry fires v h;
    }

-- The thread after the start of an action's script.
pub record IsBegun {S : Type 0} (button : ℤ) (s' : ScbtnPoller S) : Type 0 where
  pub script : CString
  pub env : List CString
  pub phase_after : s'.phase ≡ running button script env
  pub valid : ScbtnValid s'

-- The thread after a round: a script runs, or it goes on without a trigger.
pub data IsRound {S : Type 0} (button : ℤ) (s' : ScbtnPoller S) : Type 0 where
  begun : IsBegun button s' → IsRound button s'
  passed : s'.triggered ≡ false → s'.phase ≡ checking button → ScbtnValid s' → IsRound button s'

module _ {S : Type 0} (backend : Module S) (p : Process) (script_path : CString → CString)
    (known : IsKnown p) where
  begin_script-IsBegun :
      (button : ℤ) (s : ScbtnPoller S) (k : ℕ)
      → ScbtnValid s
      → k < s.thread.num_of_options_with_scripts
      → (s' : ScbtnPoller S) × (begin_script backend p script_path button s k ≡ some s')
        × IsBegun button s'
  unfolding begin_script closed_dev
  begin_script-IsBegun button s k v h =
      let (action, e, runs) = entry_of s k v h in
      let (script, e') = script_of_entry action.script runs in
      let runs' : runs_script (some script) ≡ true = subst (λ o. runs_script o ≡ true) e' runs in
      let (env, e'') = environment_known p (or_null action.action_name) s.dev.sane_device known in
      (
        record (closed_dev backend p script_path (backend.close_scanner s.dev s.state) s) {
          phase = running button (script_path script) env;
        },
        rw (ltb-true k s.thread.num_of_options_with_scripts h, e, e'', e', runs') refl,
        record {
          script = script_path script;
          env = env;
          phase_after = refl;
          valid = record { used = v.used; scripts = v.scripts; trigger = v.trigger };
        },
      )

  acted-IsRound :
      (button : ℤ) (s : ScbtnPoller S)
      → ScbtnValid s
      → (s' : ScbtnPoller S) × (act_on_button backend p script_path button s (pending_action s)
          ≡ some s')
        × IsRound button s'
  unfolding act_on_button
  acted-IsRound button s v = elim (Bool-cases s.triggered) [
    | inl t ↦
        let (k, e, h) = v.trigger t in
        let (s', run, after) = begin_script-IsBegun button s k v h in
        let pending : pending_action s ≡ some k = rw t e in
        (s', ap (act_on_button backend p script_path button s) pending ∙ run, begun after)
    | inr t ↦ (
      record s { index = suc s.index; phase = checking button },
      (let pending : pending_action s ≡ none = rw t refl in
          ap (act_on_button backend p script_path button s) pending),
      passed t refl (record { used = v.used; scripts = v.scripts; trigger = v.trigger }),
    )
  ]

  pub scbtn_round-IsRound :
      (button : ℤ) (s : ScbtnPoller S)
      → ScbtnValid s
      → s.index < s.thread.num_of_options_with_scripts
      → (s' : ScbtnPoller S) × (scbtn_round backend p script_path button s ≡ some s')
        × IsRound button s'
  unfolding scbtn_round update_entry check_button
  scbtn_round-IsRound button s v h =
      let (entry, e, runs) = entry_of s s.index v h in
      let pressed = is_pressed entry.number button in
      let fires = pressed && (entry.from_value == entry.value && entry.to_value == 1) in
      let entry' = record entry { value = value_of pressed } in
      let inside : s.index < length s.thread.opts = omega (arith, h, v.used) in
      let (s', run, after) =
        acted-IsRound button (updated s s.index entry' fires)
          (updated-ScbtnValid s s.index entry' fires v h runs) in
      (s', rw (e, runs, store-set s.thread.opts s.index entry' inside) run, after)
