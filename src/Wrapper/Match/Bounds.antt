-- ===== src/Wrapper/Match/Bounds.antt =====
-- The array of actions in scbtn_find_matching_options of src/scanbd/scanbuttond_wrapper.c when no
-- option may have several actions.
use scanbd.Prelude.{
  ℕ, zero, suc, ◌+◌, ◌≤◌, ◌<◌, ◌≡◌, refl, ◌∙◌, inl, inr, true, false, Option, some, List, [], ◌∷◌,
  Bool-cases, is_neg, take, length, length-map, length-take, map, set, store-set, length-set, All,
  Distinct, CString, arith,
}
use scanbd.Sane.Types.{Regex, Action, Section}
use scanbd.Sane.Match.Search.{Slot, find_number-first}
use scanbd.Sane.Match.Tables.{
  InRange, numbers, count_after, Slot-le, numbers_room, Slot-Distinct, All-enter,
}
use scanbd.Sane.Match.Options.Bounds.{slot_for-single}
use scanbd.Sane.Match.Options.Entry.{runs_script, script_of-runs}
use scanbd.Wrapper.Match.{
  ScbtnOption, ScbtnThread, scbtn_entry, scbtn_write, scbtn_install, scbtn_option, scbtn_options,
  scbtn_action, scbtn_actions, scbtn_find_matching_options,
}

abbrev pub IsButton : ℕ → ScbtnOption → Type 0
IsButton n entry = InRange (suc n) entry.number

abbrev pub Scripted : ScbtnOption → Type 0
Scripted entry = runs_script entry.script ≡ true

-- The entries in use fit the array, have a script and belong to different buttons.
pub record ScbtnTable (st : ScbtnThread) : Type 0 where
  pub array : length st.opts ≡ st.num_of_options
  pub used : st.num_of_options_with_scripts ≤ st.num_of_options
  pub buttons : All (IsButton st.num_of_options) (take st.num_of_options_with_scripts st.opts)
  pub scripts : All Scripted (take st.num_of_options_with_scripts st.opts)
  pub distinct : Distinct (numbers ScbtnOption.number st.num_of_options_with_scripts st.opts)

all_numbers :
    (n : ℕ) (xs : List ScbtnOption)
    → All (IsButton n) xs
    → All (InRange (suc n)) (map ScbtnOption.number xs)
all_numbers n [] h = tt
all_numbers n (x ∷ xs) h = (h.0, all_numbers n xs h.1)

-- A place for the action of a button is inside the array.
place_room :
    (st : ScbtnThread) (opt i : ℕ)
    → ScbtnTable st
    → opt < st.num_of_options
    → Slot st.num_of_options_with_scripts
        (numbers ScbtnOption.number st.num_of_options_with_scripts st.opts)
        (suc opt)
        i
    → i < length st.opts
place_room st opt i t h (inl (lt, same)) = omega (arith, lt, t.used, t.array)
place_room st opt i t h (inr (end, new)) =
    let count = st.num_of_options_with_scripts in
    let room =
      numbers_room (suc st.num_of_options) (suc opt) (numbers ScbtnOption.number count st.opts)
        (all_numbers st.num_of_options (take count st.opts) t.buttons) t.distinct new
        (omega (arith, h), omega (arith, h)) in
    omega (
      arith,
      room,
      end,
      t.array,
      t.used,
      length-map ScbtnOption.number (take count st.opts),
      length-take count st.opts,
    )

-- What a function that returns a thread keeps: it returns, the table stays valid, and the number of
-- options and the array's end stay.
abbrev pub KeepsTable : ScbtnThread → Option ScbtnThread → Type 0
KeepsTable st r =
    (st' : ScbtnThread) × (r ≡ some st') × ScbtnTable st' × (st'.num_of_options ≡ st.num_of_options)

scbtn_write-KeepsTable :
    (action : Action) (opt : ℕ) (st : ScbtnThread) (i : ℕ)
    → ScbtnTable st
    → opt < st.num_of_options
    → Slot st.num_of_options_with_scripts
        (numbers ScbtnOption.number st.num_of_options_with_scripts st.opts)
        (suc opt)
        i
    → KeepsTable st (scbtn_write action opt st i)
unfolding scbtn_write
scbtn_write-KeepsTable action opt st i t h slot =
    let count = st.num_of_options_with_scripts in
    let entry = scbtn_entry action opt in
    let room : i < length st.opts = place_room st opt i t h slot in
    let le : i ≤ count = Slot-le count (suc opt) _ slot in
    (
      record st { opts = set st.opts i entry; num_of_options_with_scripts = count_after i count },
      rw (store-set st.opts i entry room) refl,
      record {
        array = length-set st.opts i entry ∙ t.array;
        used =
            (let at_end : count_after i count ≤ st.num_of_options =
                ground (arith, room, t.array, t.used) in
              at_end);
        buttons =
            All-enter ScbtnOption.number (IsButton st.num_of_options) count st.opts entry room le
              (omega (arith, h), omega (arith, h)) t.buttons;
        scripts =
            All-enter ScbtnOption.number Scripted count st.opts entry room le
              (script_of-runs action.script) t.scripts;
        distinct =
            Slot-Distinct ScbtnOption.number count (suc opt) st.opts entry refl room slot
              t.distinct;
      },
      refl,
    )

scbtn_install-KeepsTable :
    (action : Action) (opt : ℕ) (st : ScbtnThread)
    → ScbtnTable st
    → opt < st.num_of_options
    → KeepsTable st (scbtn_install false action opt st)
unfolding scbtn_install
scbtn_install-KeepsTable action opt st t h =
    let (i, found, slot) =
      find_number-first ScbtnOption.number st.num_of_options_with_scripts st.opts (suc opt)
        (omega (arith, t.array, t.used)) in
    rw (found, slot_for-single st.num_of_options st.num_of_options_with_scripts i)
      (scbtn_write-KeepsTable action opt st i t h slot)

module _ (re : Regex) (button_name : ℕ → CString) where
  abbrev named : ℕ → Option CString
  named n = some (button_name n)

  scbtn_option-KeepsTable :
      (action : Action) (opt : ℕ) (st : ScbtnThread)
      → ScbtnTable st
      → opt < st.num_of_options
      → KeepsTable st (scbtn_option re named false action opt st)
  unfolding scbtn_option
  scbtn_option-KeepsTable action opt st t h =
      elim (Bool-cases (re.matches action.filter (button_name (suc opt)))) [
        | inl e ↦ rw e (scbtn_install-KeepsTable action opt st t h)
        | inr e ↦ rw e (st, refl, t, refl)
      ]

  scbtn_options-KeepsTable :
      (action : Action) (k opt : ℕ) (st : ScbtnThread)
      → ScbtnTable st
      → opt + k ≤ st.num_of_options
      → KeepsTable st (scbtn_options re named false action k opt st)
  unfolding scbtn_options
  scbtn_options-KeepsTable action zero opt st t h = (st, refl, t, refl)
  scbtn_options-KeepsTable action (suc k) opt st t h =
      let (st', e, t', same) = scbtn_option-KeepsTable action opt st t (omega (arith, h)) in
      let (st'', e', t'', same') =
        scbtn_options-KeepsTable action k (suc opt) st' t' (omega (arith, h, same)) in
      (st'', rw e e', t'', same' ∙ same)

  scbtn_action-KeepsTable :
      (action : Action) (st : ScbtnThread)
      → ScbtnTable st
      → KeepsTable st (scbtn_action re named false action st)
  unfolding scbtn_action
  scbtn_action-KeepsTable action st t = elim (Bool-cases (is_neg (re.regcomp action.filter))) [
    | inl e ↦ rw e (st, refl, t, refl)
    | inr e ↦ rw e (scbtn_options-KeepsTable action st.num_of_options 0 st t (omega arith))
  ]

  scbtn_actions-KeepsTable :
      (actions : List Action) (st : ScbtnThread)
      → ScbtnTable st
      → KeepsTable st (scbtn_actions re named false actions st)
  unfolding scbtn_actions
  scbtn_actions-KeepsTable [] st t = (st, refl, t, refl)
  scbtn_actions-KeepsTable (action ∷ actions) st t =
      let (st', e, t', same) = scbtn_action-KeepsTable action st t in
      let (st'', e', t'', same') = scbtn_actions-KeepsTable actions st' t' in
      (st'', rw e e', t'', same' ∙ same)

  -- Without multiple actions the matching stays inside the array, whatever the section holds.
  pub scbtn_find_matching_options-KeepsTable :
      (st : ScbtnThread) (sec : Section)
      → ScbtnTable st
      → KeepsTable st (scbtn_find_matching_options re named false st sec)
  unfolding scbtn_find_matching_options
  scbtn_find_matching_options-KeepsTable st sec t = scbtn_actions-KeepsTable sec.actions st t
