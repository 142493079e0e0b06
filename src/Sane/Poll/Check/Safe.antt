-- ===== src/Sane/Poll/Check/Safe.antt =====
-- The thread after the check of an option in sane_poll of src/scanbd/sane.c.
use scanbd.Prelude.{
  ℕ, ◌<◌, ◌≡◌, refl, sym, ap, ◌∙◌, subst, Bool, true, false, Option, none, some, length, take, set,
  store-set, get_elem?, All, All-set, Distinct, take-set, arith, get_elem?-take, get_elem?-map,
  set_same, length-set, if◌then◌else◌,
}
use mathlib.Core.Option.{some-injective}
use mathlib.Core.Option
use scanbd.Sane.Types.{Descriptor, Driver, Regex, OptValue, ValueType, Thread, DevOption}
use scanbd.Sane.Match.Tables.{numbers, numbers-set, InRange}
use scanbd.Sane.Match.Options.Entry.{is_ready, is_set, runs_script, is_text, HasTypes}
use scanbd.Sane.Match.Options.Bounds.{OptionsValid, option_numbers}
use scanbd.Sane.Poll.Check.{fires, open_descriptor, new_value, check_entry, check_option}
use scanbd.Sane.Poll.Check.Ready.{
  fires-some, accepted_of, runs_of, new_value-some, used_entry, descriptor_of,
}

-- A pending trigger names an entry in use.
abbrev pub TriggerValid : Thread → Type 0
TriggerValid st =
    st.triggered ≡ true
    → (k : ℕ) × (st.triggered_option ≡ some k) × (k < st.num_of_options_with_scripts)

pub open_descriptor_run :
    {D : Type 0} (sane : Driver D) (d : D) (st : Thread) (n : ℕ) {odesc : Descriptor}
    → st.is_open ≡ true
    → sane.descriptor d n ≡ some odesc
    → open_descriptor sane d st n ≡ some odesc
unfolding open_descriptor
open_descriptor_run sane d st n opened found = rw opened found

-- A new value for a ready entry.
ready_value :
    (t : Option ValueType) (entry : DevOption) (value : OptValue)
    → is_ready t entry ≡ true
    → (is_text t ≡ true → is_set value.str ≡ true)
    → is_ready t (record entry { value = value }) ≡ true
ready_value none entry value h text = ground arith
ready_value (some t) entry value h text = ground arith

-- The thread after the check of an entry.
abbrev pub checked : Thread → ℕ → DevOption → OptValue → Bool → Thread
checked st si entry value fired = record st {
  opts = set st.opts si (record entry { value = value });
  triggered = if fired then true else st.triggered;
  triggered_option = if fired then some si else st.triggered_option;
}

-- The steps of a check, put together.
check_option_run :
    {D : Type 0} (sane : Driver D) (re : Regex) (d : D) (st : Thread) (si : ℕ) {entry : DevOption}
    {odesc : Descriptor} {value : OptValue} {d' : D} {fired : Bool}
    → get_elem? st.opts si ≡ some entry
    → open_descriptor sane d st entry.number ≡ some odesc
    → runs_script entry.script ≡ true
    → new_value sane d st si entry ≡ some (value, d')
    → fires re odesc entry value ≡ some fired
    → si < length st.opts
    → check_option sane re d st si ≡ some (d', checked st si entry value fired)
unfolding check_option check_entry
check_option_run sane re d st si {entry} {value = value} e o r v f h =
    rw (e, o, r, v, f, store-set st.opts si (record entry { value = value }) h) refl

module _ (multiple : Bool) (ty : ℕ → Option ValueType) where
  -- An entry with a new value in place of the old keeps the table valid.
  pub checked-OptionsValid :
      (st : Thread) (si : ℕ) (entry : DevOption) (value : OptValue) (fired : Bool)
      → OptionsValid multiple ty st
      → si < st.num_of_options_with_scripts
      → get_elem? st.opts si ≡ some entry
      → (is_text (ty entry.number) ≡ true → is_set value.str ≡ true)
      → OptionsValid multiple ty (checked st si entry value fired)
  checked-OptionsValid st si entry value fired v h e text =
      let count = st.num_of_options_with_scripts in
      let entry' = record entry { value = value } in
      let (_, e', ready) = used_entry multiple ty st si v h in
      let known : is_ready (ty entry.number) entry ≡ true =
        subst (λ o. is_ready (ty o.number) o ≡ true) (some-injective _ _ (sym e' ∙ e)) ready in
      let same : numbers DevOption.number count (set st.opts si entry') ≡ option_numbers st =
        numbers-set DevOption.number count si st.opts entry'
        ∙ set_same (option_numbers st) si entry.number (
            get_elem?-map DevOption.number (take count st.opts) si
              (get_elem?-take count si st.opts h ∙ e)) in
      record {
        table = record {
          array = length-set st.opts si entry' ∙ v.table.array;
          used = v.table.used;
          ranged = subst (All (InRange st.num_of_options)) (sym same) v.table.ranged;
        };
        distinct = λ one. subst Distinct (sym same) (v.distinct one);
        ready =
            subst (All (λ o. is_ready (ty o.number) o ≡ true))
              (sym (take-set count si st.opts entry'))
              (All-set (λ o. is_ready (ty o.number) o ≡ true) (take count st.opts) si entry'
                (ready_value (ty entry.number) entry value known text) v.ready);
      }

  checked-TriggerValid :
      (st : Thread) (si : ℕ) (entry : DevOption) (value : OptValue) (fired : Bool)
      → TriggerValid st
      → si < st.num_of_options_with_scripts
      → TriggerValid (checked st si entry value fired)
  checked-TriggerValid st si entry value true tv h = λ _. (si, refl, h)
  checked-TriggerValid st si entry value false tv h = tv

  -- The check of an entry in use returns, with the device open: no assertion fails, nothing
  -- outside st->opts is read or written, no null pointer is used. Only the entry's value and the
  -- trigger change, and the trigger, when it is set, names an entry in use. The table and the
  -- trigger are valid at first, and the type of an option does not change.
  pub check_option-Safe :
      {D : Type 0} (sane : Driver D) (re : Regex) (d : D) (st : Thread) (si : ℕ)
      → HasTypes sane ty
      → OptionsValid multiple ty st
      → TriggerValid st
      → st.is_open ≡ true
      → si < st.num_of_options_with_scripts
      → (d' : D) × (entry : DevOption) × (value : OptValue) × (fired : Bool) × (get_elem? st.opts si
          ≡ some entry)
        × (check_option sane re d st si ≡ some (d', checked st si entry value fired))
        × OptionsValid multiple ty (checked st si entry value fired)
        × TriggerValid (checked st si entry value fired)
  check_option-Safe sane re d st si typed v tv opened h =
      let (entry, e, ready) = used_entry multiple ty st si v h in
      let (odesc, found) = descriptor_of sane d entry.number typed (accepted_of _ entry ready) in
      let typed_as : ty entry.number ≡ some odesc.type =
        sym (typed d entry.number) ∙ ap (Option.map Descriptor.type) found in
      let (value, d', ev, text) =
        new_value-some multiple ty sane d st si entry typed v h (accepted_of _ entry ready) in
      let (fired, ef) =
        fires-some re odesc entry value (rw typed_as at ready) (rw typed_as at text) in
      (
        d',
        entry,
        value,
        fired,
        e,
        check_option_run sane re d st si e (open_descriptor_run sane d st entry.number opened found)
            (runs_of _ entry ready) ev ef (omega (arith, v.table.array, v.table.used, h)),
        checked-OptionsValid st si entry value fired v h e text,
        checked-TriggerValid st si entry value fired tv h,
      )
