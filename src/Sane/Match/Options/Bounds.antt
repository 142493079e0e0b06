-- ===== src/Sane/Match/Options/Bounds.antt =====
-- The table of actions after sane_find_matching_options of src/scanbd/sane.c.
use scanbd.Prelude.{
  ℕ, zero, suc, ◌+◌, ◌-◌, ◌≤◌, ◌<◌, ◌≡◌, refl, sym, ap, ◌∙◌, inl, inr, Bool, true, false, Option,
  some, List, [], ◌∷◌, Bool-cases, Option-cases, ==_false, ◌==◌, is_neg, take, set, store-set,
  get_elem?-lt, All, Distinct, arith,
}
use mathlib.Core.Option
use scanbd.Sane.Types.{Descriptor, Driver, Regex, ValueType, Thread, DevOption, Action, Section}
use scanbd.Sane.Value.Read.{get_sane_option_value}
use scanbd.Sane.Match.Search.{candidate, candidate-type, Slot, find_number-first}
use scanbd.Sane.Match.Tables.{
  InRange, IsTable, numbers, count_after, Slot-le, Slot-room, enter-IsTable, enter-Distinct,
  All-enter,
}
use scanbd.Sane.Match.Options.Entry.{
  is_ready, HasTypes, NeverNegative, read-is_set, new_entry-is_ready,
}
use scanbd.Sane.Match.Options.{
  slot_for, write_option, install_action, action_option, action_options, one_action, all_actions,
  sane_find_matching_options,
}

-- The option numbers of the actions in use.
abbrev pub option_numbers : Thread → List ℕ
option_numbers st = numbers DevOption.number st.num_of_options_with_scripts st.opts

-- Without multiple actions no option has two.
pub record OptionsValid (multiple : Bool) (ty : ℕ → Option ValueType) (st : Thread) : Type 0 where
  pub table : IsTable DevOption.number st.num_of_options st.num_of_options_with_scripts st.opts
  pub distinct : multiple ≡ false → Distinct (option_numbers st)
  pub ready :
      All (λ o. is_ready (ty o.number) o ≡ true) (take st.num_of_options_with_scripts st.opts)

-- Only the table of actions has changed.
abbrev pub Frame : Thread → Thread → Type 0
Frame st st' =
    st'
    ≡ record st { opts = st'.opts; num_of_options_with_scripts = st'.num_of_options_with_scripts }

Frame-trans : (s t u : Thread) → Frame s t → Frame t u → Frame s u
Frame-trans s t u f g =
    g
    ∙ ap
        (λ (x : Thread). record x {
          opts = u.opts;
          num_of_options_with_scripts = u.num_of_options_with_scripts;
        })
        f

-- Where an action may be entered: inside the array, unless the array is full.
abbrev IsSlot : Bool → Thread → ℕ → ℕ → Type 0
IsSlot multiple st opt n =
    (n ≤ st.num_of_options_with_scripts)
    × ((multiple ≡ false)
        → (n < st.num_of_options) × Slot st.num_of_options_with_scripts (option_numbers st) opt n)

pub slot_for-single : (n count i : ℕ) → slot_for false n count i ≡ i
unfolding slot_for
slot_for-single n count i = ground arith

pub slot_for-multiple : (n count i : ℕ) → i ≤ count → count ≤ n → slot_for true n count i ≡ count
unfolding slot_for
slot_for-multiple n count i h k = ground arith

-- What a function that returns the device and a thread keeps: it does not fault, the table of
-- actions stays valid, and nothing else of the thread changes.
abbrev pub Keeps :
    {D : Type 0} → Bool → (ℕ → Option ValueType) → Thread → Option (D × Thread) → Type 0
Keeps {D} multiple ty st r =
    (d' : D) × (st' : Thread) × (r ≡ some (d', st')) × OptionsValid multiple ty st' × Frame st st'

module _ (multiple : Bool) (ty : ℕ → Option ValueType) where
  slot_for-IsSlot :
      (st : Thread) (opt i : ℕ)
      → OptionsValid multiple ty st
      → InRange st.num_of_options opt
      → Slot st.num_of_options_with_scripts (option_numbers st) opt i
      → IsSlot multiple st opt
          (slot_for multiple st.num_of_options st.num_of_options_with_scripts i)
  slot_for-IsSlot st opt i v o slot = elim (Bool-cases multiple) [
    | inl many ↦
        rw (many, slot_for-multiple _ _ i (Slot-le _ opt _ slot) v.table.used)
          (omega arith, λ e. cc)
    | inr one ↦
        rw (one, slot_for-single st.num_of_options st.num_of_options_with_scripts i)
          (
            Slot-le _ opt _ slot,
            λ _. (
              Slot-room DevOption.number st.num_of_options st.num_of_options_with_scripts opt
                  st.opts v.table (v.distinct one) o slot,
              slot,
            ),
          )
  ]

module _ {D : Type 0} (sane : Driver D) (re : Regex) (multiple : Bool) (ty : ℕ → Option ValueType)
    (typed : HasTypes sane ty) (compiles : NeverNegative re) where
  pub write_option-Keeps :
      (d : D) (st : Thread) (action : Action) {odesc : Descriptor} (opt n : ℕ)
      → OptionsValid multiple ty st
      → InRange st.num_of_options opt
      → candidate re action.filter (sane.descriptor d opt) ≡ some odesc
      → IsSlot multiple st opt n
      → Keeps multiple ty st (write_option sane re multiple d st action odesc opt n)
  unfolding write_option
  write_option-Keeps d st action {odesc} opt n v o c s =
      elim (Bool-cases (n == st.num_of_options)) [
        | inl full ↦ (d, st, rw full, v, refl)
        | inr space ↦
            let t = v.table in
            let room : n < st.num_of_options =
              omega (arith, s.0, t.used, ==_false n st.num_of_options space) in
            let (found, accepted) = candidate-type re action.filter (sane.descriptor d opt) c in
            let (old, eo) = get_elem?-lt st.opts n (omega (arith, room, t.array)) in
            let (value, d') = get_sane_option_value sane d opt in
            let (entry, en, number, ready) =
              new_entry-is_ready re action odesc opt old value compiles accepted
                (read-is_set sane d opt found) in
            let stored = store-set st.opts n entry (omega (arith, room, t.array)) in
            let typed_as : ty opt ≡ some odesc.type =
              sym (typed d opt) ∙ ap (Option.map Descriptor.type) found in
            (
              d',
              record st {
                opts = set st.opts n entry;
                num_of_options_with_scripts = count_after n st.num_of_options_with_scripts;
              },
              ground (arith, eo, en, stored),
              record {
                table = enter-IsTable DevOption.number _ _ opt st.opts entry t number o room s.0;
                distinct = λ one.
                    enter-Distinct DevOption.number st.num_of_options st.num_of_options_with_scripts
                      opt st.opts entry t number room (s.1 one).1 (v.distinct one);
                ready =
                    All-enter DevOption.number (λ e. is_ready (ty e.number) e ≡ true)
                      st.num_of_options_with_scripts st.opts entry (omega (arith, room, t.array))
                      s.0 (rw (number, typed_as) ready) v.ready;
              },
              refl,
            )
      ]

  pub action_option-Keeps :
      (action : Action) (opt : ℕ) (d : D) (st : Thread)
      → OptionsValid multiple ty st
      → InRange st.num_of_options opt
      → Keeps multiple ty st (action_option sane re multiple action opt d st)
  unfolding action_option install_action
  action_option-Keeps action opt d st v o =
      elim (Option-cases (candidate re action.filter (sane.descriptor d opt))) [
        | inl e ↦ rw (e, action_option) (d, st, refl, v, refl)
        | inr (odesc, e) ↦
            let (i, found, slot) =
              find_number-first DevOption.number st.num_of_options_with_scripts st.opts opt
                (omega (arith, v.table.array, v.table.used)) in
            rw (e, action_option)
              (rw found (
                write_option-Keeps d st action opt _ v o e
                  (slot_for-IsSlot multiple ty st opt i v o slot)))
      ]

  pub action_options-Keeps :
      (action : Action) (k opt : ℕ) (d : D) (st : Thread)
      → OptionsValid multiple ty st
      → 0 < opt
      → opt + k ≤ st.num_of_options
      → Keeps multiple ty st (action_options sane re multiple action k opt d st)
  unfolding action_options
  action_options-Keeps action zero opt d st v p h = (d, st, refl, v, refl)
  action_options-Keeps action (suc k) opt d st v p h =
      let (d', st', e, v', f) = action_option-Keeps action opt d st v (p, omega arith) in
      let (d'', st'', e', v'', f') =
        action_options-Keeps action k (suc opt) d' st' v' (omega arith)
          (omega (arith, h, ap Thread.num_of_options f)) in
      (d'', st'', rw e e', v'', Frame-trans st st' st'' f f')

  pub one_action-Keeps :
      (action : Action) (d : D) (st : Thread)
      → OptionsValid multiple ty st
      → 0 < st.num_of_options
      → Keeps multiple ty st (one_action sane re multiple action d st)
  unfolding one_action
  one_action-Keeps action d st v p = elim (Bool-cases (is_neg (re.regcomp action.filter))) [
    | inl e ↦ rw e (d, st, refl, v, refl)
    | inr e ↦
        rw e
          (action_options-Keeps action (st.num_of_options - 1) 1 d st v (omega arith) (omega arith))
  ]

  pub all_actions-Keeps :
      (actions : List Action) (d : D) (st : Thread)
      → OptionsValid multiple ty st
      → 0 < st.num_of_options
      → Keeps multiple ty st (all_actions sane re multiple actions d st)
  unfolding all_actions
  all_actions-Keeps [] d st v p = (d, st, refl, v, refl)
  all_actions-Keeps (action ∷ actions) d st v p =
      let (d', st', e, v', f) = one_action-Keeps action d st v p in
      let (d'', st'', e', v'', f') =
        all_actions-Keeps actions d' st' v' (omega (arith, p, ap Thread.num_of_options f)) in
      (d'', st'', rw e e', v'', Frame-trans st st' st'' f f')

  -- Started on a valid table of a device with an option, sane_find_matching_options never reads
  -- or writes outside st->opts and meets no failing assertion: it returns, it changes nothing of
  -- the thread but that table, and the table is valid again. So every entry in use has a script
  -- that is not empty, and one for a string option has both regular expressions and a value;
  -- without multiple actions no option has two entries. The conditions are that the type of an
  -- option does not change while its device is open, and that regcomp returns no negative
  -- number.
  pub sane_find_matching_options-Keeps :
      (d : D) (st : Thread) (sec : Section)
      → OptionsValid multiple ty st
      → 0 < st.num_of_options
      → Keeps multiple ty st (sane_find_matching_options sane re multiple d st sec)
  unfolding sane_find_matching_options
  sane_find_matching_options-Keeps d st sec v p = all_actions-Keeps sec.actions d st v p
