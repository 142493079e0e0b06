-- ===== src/Sane/Match/Options/Append.antt =====
-- The order of the actions in the table of src/scanbd/sane.c, with multiple actions.
use scanbd.Prelude.{
  ℕ, zero, suc, ◌+◌, ◌-◌, ◌≤◌, ◌<◌, ◌≡◌, sym, ap, ◌∙◌, inl, inr, Bool, true, false, Option, some,
  List, [], ◌∷◌, ◌++◌, append-nil, if◌then◌else◌, store-set, get_elem?-lt, take-set_behind,
  append_assoc, Bool-cases, Option-cases, ==_false, ◌==◌, is_neg, length, take, set, take-set_end,
  arith,
}
use scanbd.Sane.Types.{Descriptor, Driver, Regex, ValueType, Thread, DevOption, Action, Section}
use scanbd.Sane.Value.Read.{get_sane_option_value}
use scanbd.Sane.Match.Search.{candidate, find_number-first}
use scanbd.Sane.Match.Tables.{Slot-le}
use scanbd.Sane.Match.Options.Entry.{HasTypes, NeverNegative}
use scanbd.Sane.Match.Options.Bounds.{
  OptionsValid, slot_for-multiple, action_option-Keeps, one_action-Keeps, all_actions-Keeps,
}
use scanbd.Sane.Match.Options.{
  new_entry, write_option, install_action, action_option, action_options, one_action, all_actions,
  sane_find_matching_options,
}

-- The actions in use, in the order in which they are polled.
abbrev pub used_options : Thread → List DevOption
used_options st = take st.num_of_options_with_scripts st.opts

abbrev pub Extends : Thread → Thread → Type 0
Extends st st' = (more : List DevOption) × (used_options st' ≡ used_options st ++ more)

Extends-returned :
    {D : Type 0} {d d' : D} {st st' : Thread}
    → ◌≡◌ {A = Option (D × Thread)} (some (d, st)) (some (d', st'))
    → Extends st st'
Extends-returned {st} {st'} e =
    let same : st' ≡ st = ground arith in ([], ap used_options same ∙ sym (append-nil _))

Extends-trans : (s t u : Thread) → Extends s t → Extends t u → Extends s u
Extends-trans s t u (xs, p) (ys, q) = (xs ++ ys, rw (q, p) (append_assoc _ xs ys))

-- A write at the end of the used entries.
write_end-Extends :
    (st : Thread) (entry : DevOption) (counts : Bool) {st' : Thread}
    → st.num_of_options_with_scripts < length st.opts
    → st' ≡ record st {
      opts = set st.opts st.num_of_options_with_scripts entry;
      num_of_options_with_scripts =
          if counts then suc st.num_of_options_with_scripts else st.num_of_options_with_scripts;
    }
    → Extends st st'
write_end-Extends st entry true h e =
    (entry ∷ [], ap used_options e ∙ take-set_end st.num_of_options_with_scripts st.opts entry h)
write_end-Extends st entry false h e = (
  [],
  ap used_options e
      ∙ take-set_behind st.num_of_options_with_scripts st.opts entry
      ∙ sym (append-nil _),
)

module _ {D : Type 0} (sane : Driver D) (re : Regex) where
  write_option-Extends :
      (d : D) (st : Thread) (action : Action) (odesc : Descriptor) (opt : ℕ) {d' : D} {st' : Thread}
      → length st.opts ≡ st.num_of_options
      → st.num_of_options_with_scripts ≤ st.num_of_options
      → write_option sane re true d st action odesc opt st.num_of_options_with_scripts
        ≡ some (d', st')
      → Extends st st'
  unfolding write_option
  write_option-Extends d st action odesc opt {d'} {st'} array used e =
      elim (Bool-cases (st.num_of_options_with_scripts == st.num_of_options)) [
        | inl full ↦ Extends-returned (rw full at e)
        | inr space ↦
            let room : st.num_of_options_with_scripts < length st.opts =
              omega (arith, ==_false _ _ space) in
            let (old, eo) = get_elem?-lt st.opts st.num_of_options_with_scripts room in
            let value = (get_sane_option_value sane d opt).0 in
            let e₁ = rw (space, eo) at e in
            elim (Option-cases (new_entry re action odesc opt old value)) [
              | inl bad ↦ cc (rw bad at e₁)
              | inr ((entry, counts), good) ↦
                  let e₂ =
                    rw (good, store-set st.opts st.num_of_options_with_scripts entry room) at e₁ in
                  write_end-Extends st entry counts {st' = st'} room (ground (arith, e₂))
            ]
      ]

module _ {D : Type 0} (sane : Driver D) (re : Regex) (ty : ℕ → Option ValueType)
    (typed : HasTypes sane ty) (compiles : NeverNegative re) where
  action_option-Extends :
      (action : Action) (opt : ℕ) (d : D) (st : Thread) {d' : D} {st' : Thread}
      → OptionsValid true ty st
      → action_option sane re true action opt d st ≡ some (d', st')
      → Extends st st'
  unfolding action_option install_action
  action_option-Extends action opt d st v e =
      elim (Option-cases (candidate re action.filter (sane.descriptor d opt))) [
        | inl c ↦ Extends-returned (rw (c, action_option) at e)
        | inr (odesc, c) ↦
            let (i, found, slot) =
              find_number-first DevOption.number st.num_of_options_with_scripts st.opts opt
                (omega (arith, v.table.array, v.table.used)) in
            let at_end =
              slot_for-multiple st.num_of_options st.num_of_options_with_scripts i
                (Slot-le _ opt _ slot) v.table.used in
            write_option-Extends sane re d st action odesc opt v.table.array v.table.used
              (rw at_end at (rw found at (rw (c, action_option) at e)))
      ]

  action_options-Extends :
      (action : Action) (k opt : ℕ) (d : D) (st : Thread) {d' : D} {st' : Thread}
      → OptionsValid true ty st
      → 0 < opt
      → opt + k ≤ st.num_of_options
      → action_options sane re true action k opt d st ≡ some (d', st')
      → Extends st st'
  unfolding action_options
  action_options-Extends action zero opt d st v p h e = Extends-returned e
  action_options-Extends action (suc k) opt d st {st' = last} v p h e =
      let (d₁, st₁, e₁, v₁, f) =
        action_option-Keeps sane re true ty typed compiles action opt d st v (p, omega arith) in
      Extends-trans st st₁ last (action_option-Extends action opt d st v e₁) (
        action_options-Extends action k (suc opt) d₁ st₁ v₁ (omega arith)
          (omega (arith, h, ap Thread.num_of_options f)) (rw e₁ at e))

  one_action-Extends :
      (action : Action) (d : D) (st : Thread) {d' : D} {st' : Thread}
      → OptionsValid true ty st
      → 0 < st.num_of_options
      → one_action sane re true action d st ≡ some (d', st')
      → Extends st st'
  unfolding one_action
  one_action-Extends action d st v p e = elim (Bool-cases (is_neg (re.regcomp action.filter))) [
    | inl neg ↦ Extends-returned (rw (neg, one_action) at e)
    | inr good ↦
        action_options-Extends action (st.num_of_options - 1) 1 d st v (omega arith) (omega arith)
          (rw (good, one_action) at e)
  ]

  all_actions-Extends :
      (actions : List Action) (d : D) (st : Thread) {d' : D} {st' : Thread}
      → OptionsValid true ty st
      → 0 < st.num_of_options
      → all_actions sane re true actions d st ≡ some (d', st')
      → Extends st st'
  unfolding all_actions
  all_actions-Extends [] d st v p e = Extends-returned e
  all_actions-Extends (action ∷ actions) d st {st' = last} v p e =
      let (d₁, st₁, e₁, v₁, f) = one_action-Keeps sane re true ty typed compiles action d st v p in
      Extends-trans st st₁ last (one_action-Extends action d st v p e₁) (
        all_actions-Extends actions d₁ st₁ v₁ (omega (arith, p, ap Thread.num_of_options f))
          (rw e₁ at e))

  -- With multiple actions, sane_find_matching_options returns, and the actions that were in use
  -- before stand unchanged and in their order at the front of those in use afterwards. The
  -- conditions are that the type of an option does not change while its device is open, and that
  -- regcomp returns no negative number. The table is valid at first and the device has an
  -- option.
  pub sane_find_matching_options-Extends :
      (d : D) (st : Thread) (sec : Section)
      → OptionsValid true ty st
      → 0 < st.num_of_options
      → (d' : D) × (st' : Thread) × (sane_find_matching_options sane re true d st sec
          ≡ some (d', st'))
        × Extends st st'
  unfolding sane_find_matching_options
  sane_find_matching_options-Extends d st sec v p =
      let (d', st', e, _, _) =
        all_actions-Keeps sane re true ty typed compiles sec.actions d st v p in
      (d', st', e, all_actions-Extends sec.actions d st v p e)
