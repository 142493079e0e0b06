-- ===== src/Sane/Poll/Check/Ready.antt =====
-- What the check of an option in sane_poll of src/scanbd/sane.c finds at an entry in use.
use scanbd.Prelude.{
  ℕ, ◌≤◌, ◌<◌, ◌≡◌, refl, sym, ap, ◌∙◌, inl, inr, Bool, true, false, ◌&&◌, Option, none, some,
  Bool-cases, Option-cases, ◌==◌, ==_false, length, take, get_elem?, get_elem?-lt, All-get, arith,
  get_elem?-take, get_elem?-map, get_elem?-set_self, map, length-map, length-take,
}
use mathlib.Core.Option.{some-injective}
use scanbd.Sane.Types.{Descriptor, Driver, Regex, OptValue, ValueType, Thread, DevOption}
use scanbd.Sane.Value.Read.{get_sane_option_value, is_numerical, is_string}
use scanbd.Sane.Match.Search.{find_number-first, Slot}
use scanbd.Sane.Match.Tables.{Slot-le}
use scanbd.Sane.Match.Options.Entry.{
  is_ready, is_set, runs_script, is_accepted, is_text, HasTypes, read-is_set,
}
use scanbd.Sane.Match.Options.Bounds.{OptionsValid}
use scanbd.Sane.Poll.Check.{copy_value, fires, new_value}

pub is_set-some {ℓ} : {A : Type ℓ} (o : Option A) → is_set o ≡ true → (a : A) × (o ≡ some a)
is_set-some none h = cc
is_set-some (some a) h = (a, refl)

is_ready_text :
    (t : ValueType) (entry : DevOption)
    → is_ready (some t) entry ≡ true
    → is_numerical t ≡ false
    → (is_string t ≡ true)
      × (is_set entry.from_value.reg ≡ true)
      × (is_set entry.to_value.reg ≡ true)
      × (is_set entry.value.str ≡ true)
is_ready_text t entry h n = ground arith

-- A ready entry's trigger can be tested against a value that its type requires.
pub fires-some :
    (re : Regex) (odesc : Descriptor) (entry : DevOption) (value : OptValue)
    → is_ready (some odesc.type) entry ≡ true
    → (is_string odesc.type ≡ true → is_set value.str ≡ true)
    → (b : Bool) × (fires re odesc entry value ≡ some b)
unfolding fires
fires-some re odesc entry value ready given = elim (Bool-cases (is_numerical odesc.type)) [
  | inl num ↦ (
    (entry.from_value.num_value == entry.value.num_value)
        && (entry.to_value.num_value == value.num_value),
    rw num refl,
  )
  | inr other ↦
      let (text, from_set, to_set, str_set) = is_ready_text odesc.type entry ready other in
      let (from, f) = is_set-some entry.from_value.reg from_set in
      let (to, t) = is_set-some entry.to_value.reg to_set in
      let (before, b) = is_set-some entry.value.str str_set in
      let (after, a) = is_set-some value.str (given text) in
      elim (Bool-cases (re.matches from before)) [
        | inl m ↦ (re.matches to after, rw (other, text, f, b) (rw m (rw (t, a) refl)))
        | inr m ↦ (false, rw (other, text, f, b) (rw m refl))
      ]
]

-- A ready entry of a string option has a value.
text_value :
    (t : Option ValueType) (entry : DevOption)
    → is_ready t entry ≡ true
    → is_text t ≡ true
    → is_set entry.value.str ≡ true
text_value none entry h text = ground arith
text_value (some t) entry h text = ground arith

-- So has the value that is read from the device.
read_text :
    {D : Type 0} {ty : ℕ → Option ValueType} (sane : Driver D) (d : D) (n : ℕ)
    → HasTypes sane ty
    → is_text (ty n) ≡ true
    → is_set (get_sane_option_value sane d n).0.str ≡ true
read_text {ty} sane d n typed text = elim (Option-cases (sane.descriptor d n)) [
  | inl missing ↦ cc (rw (sym (typed d n), missing) at text)
  | inr (odesc, found) ↦ read-is_set sane d n found (rw (sym (typed d n), found) at text)
]

pub accepted_of :
    (t : Option ValueType) (entry : DevOption) → is_ready t entry ≡ true → is_accepted t ≡ true
accepted_of none entry h = h
accepted_of (some t) entry h = ground arith

pub runs_of :
    (t : Option ValueType) (entry : DevOption)
    → is_ready t entry ≡ true
    → runs_script entry.script ≡ true
runs_of none entry h = ground arith
runs_of (some t) entry h = ground arith

-- An option of an accepted type has a descriptor.
pub descriptor_of :
    {D : Type 0} {ty : ℕ → Option ValueType} (sane : Driver D) (d : D) (n : ℕ)
    → HasTypes sane ty
    → is_accepted (ty n) ≡ true
    → (odesc : Descriptor) × (sane.descriptor d n ≡ some odesc)
descriptor_of {ty} sane d n typed acc = elim (Option-cases (sane.descriptor d n)) [
  | inl missing ↦ cc (rw (sym (typed d n), missing) at acc)
  | inr found ↦ found
]

module _ (multiple : Bool) (ty : ℕ → Option ValueType) where
  -- What is known of an entry in use.
  pub used_entry :
      (st : Thread) (i : ℕ)
      → OptionsValid multiple ty st
      → i < st.num_of_options_with_scripts
      → (entry : DevOption) × (get_elem? st.opts i ≡ some entry)
        × (is_ready (ty entry.number) entry ≡ true)
  used_entry st i v h =
      let (entry, e) = get_elem?-lt st.opts i (omega (arith, v.table.array, v.table.used)) in
      (
        entry,
        e,
        All-get (λ o. is_ready (ty o.number) o ≡ true) (take st.num_of_options_with_scripts st.opts)
            i v.ready (get_elem?-take st.num_of_options_with_scripts i st.opts h ∙ e),
      )

  -- An earlier entry that the search finds has the number that was looked for.
  found_number :
      (st : Thread) (k opt i : ℕ) {earlier : DevOption}
      → k ≤ length st.opts
      → i < k
      → Slot k (map DevOption.number (take k st.opts)) opt i
      → get_elem? st.opts i ≡ some earlier
      → earlier.number ≡ opt
  found_number st k opt i {earlier} h lt (inr (end, _)) e = absurd (omega (arith, end, lt))
  found_number st k opt i {earlier} h lt (inl (_, same)) e = some-injective _ _ (
      sym (get_elem?-map DevOption.number (take k st.opts) i (get_elem?-take k i st.opts lt ∙ e))
      ∙ (ap (λ ns. get_elem? ns i) (sym same)
          ∙ get_elem?-set_self (map DevOption.number (take k st.opts)) i opt
              (omega (arith, length-map DevOption.number (take k st.opts), length-take k st.opts))))

  pub new_value-some :
      {D : Type 0} (sane : Driver D) (d : D) (st : Thread) (si : ℕ) (entry : DevOption)
      → HasTypes sane ty
      → OptionsValid multiple ty st
      → si < st.num_of_options_with_scripts
      → is_accepted (ty entry.number) ≡ true
      → (value : OptValue) × (d' : D) × (new_value sane d st si entry ≡ some (value, d'))
        × (is_text (ty entry.number) ≡ true → is_set value.str ≡ true)
  unfolding new_value
  new_value-some sane d st si entry typed v h acc =
      let inside : si ≤ length st.opts = omega (arith, v.table.array, v.table.used) in
      let (i, found, slot) = find_number-first DevOption.number si st.opts entry.number inside in
      elim (Bool-cases (i == si)) [
        | inl end ↦
            let (value, d') = get_sane_option_value sane d entry.number in
            (value, d', rw (found, end) refl, read_text sane d entry.number typed)
        | inr earlier ↦
            let lt : i < si =
              omega (arith, ==_false i si earlier, Slot-le si entry.number _ slot) in
            let (old, e, ready) = used_entry st i v (omega (arith, lt, h)) in
            let same = found_number st si entry.number i inside lt slot e in
            (
              copy_value old.value,
              d,
              rw (found, earlier, e) refl,
              λ text. text_value (ty entry.number) old (rw same at ready) text,
            )
      ]
