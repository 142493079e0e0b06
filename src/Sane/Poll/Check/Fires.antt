-- ===== src/Sane/Poll/Check/Fires.antt =====
-- When a trigger of src/scanbd/sane.c fires over successive polls.
use scanbd.Prelude.{
  ℕ, ◌<◌, ◌≡◌, ◌≢◌, refl, sym, ap, ◌∙◌, inl, inr, Bool, true, false, some, Option-cases, get_elem?,
  get_elem?-set_self, get_elem?-inside, length, store-set, if◌then◌else◌, arith,
}
use mathlib.Core.Option.{some-injective}
use scanbd.Sane.Types.{Descriptor, Driver, Regex, OptValue, Thread, DevOption}
use scanbd.Sane.Value.Read.{is_numerical}
use scanbd.Sane.Match.Options.Entry.{runs_script}
use scanbd.Sane.Poll.Check.Safe.{checked}
use scanbd.Sane.Poll.Check.{fires, open_descriptor, new_value, check_entry, check_option, handled}

module _ {D : Type 0} (sane : Driver D) (re : Regex) where
  -- What a check that returned has done.
  pub check_option_inv :
      (d : D) (st : Thread) (si : ℕ) {entry : DevOption} {odesc : Descriptor} {d' : D}
      {st' : Thread}
      → get_elem? st.opts si ≡ some entry
      → open_descriptor sane d st entry.number ≡ some odesc
      → runs_script entry.script ≡ true
      → si < length st.opts
      → check_option sane re d st si ≡ some (d', st')
      → (value : OptValue) × (fired : Bool) × (fires re odesc entry value ≡ some fired)
        × (st' ≡ checked st si entry value fired)
  unfolding check_option check_entry
  check_option_inv d st si {entry} {odesc} {d'} {st'} e o r h c =
      let c₁ = rw (e, o, r) at c in
      elim (Option-cases (new_value sane d st si entry)) [
        | inl n ↦ cc (rw n at c₁)
        | inr ((value, d₁), n) ↦
            let c₂ = rw n at c₁ in
            elim (Option-cases (fires re odesc entry value)) [
              | inl f ↦ cc (rw f at c₂)
              | inr (fired, f) ↦
                  let c₃ = rw (f, store-set st.opts si (record entry { value = value }) h) at c₂ in
                  (value, fired, f, ground (arith, c₃))
            ]
      ]

-- A numerical trigger that fired waits for its from-value again.
fires_twice :
    (re : Regex) (odesc odesc' : Descriptor) (entry : DevOption) (v w : OptValue)
    → is_numerical odesc.type ≡ true
    → is_numerical odesc'.type ≡ true
    → entry.from_value.num_value ≢ entry.to_value.num_value
    → fires re odesc entry v ≡ some true
    → fires re odesc' (record entry { value = v }) w ≡ some false
unfolding fires
fires_twice re odesc odesc' entry v w n n' ne f = rw n' (let f' = rw n at f in ground (arith, f'))

module _ {D : Type 0} (sane : Driver D) (re : Regex) where
  -- A numerical trigger whose from-value differs from its to-value fires on the change, not on
  -- the state: if the check of an entry sets the trigger, the next check of the entry, whatever
  -- the device then reports, does not set it again. The entry has a script, its option is
  -- numerical in both checks, and no trigger is set before the first.
  pub check_option-once :
      (d e : D) (st : Thread) (si : ℕ) (entry : DevOption) (odesc odesc' : Descriptor) {d' e' : D}
      {st' st'' : Thread}
      → get_elem? st.opts si ≡ some entry
      → runs_script entry.script ≡ true
      → entry.from_value.num_value ≢ entry.to_value.num_value
      → st.triggered ≡ false
      → open_descriptor sane d st entry.number ≡ some odesc
      → is_numerical odesc.type ≡ true
      → check_option sane re d st si ≡ some (d', st')
      → st'.triggered ≡ true
      → open_descriptor sane e (handled st') entry.number ≡ some odesc'
      → is_numerical odesc'.type ≡ true
      → check_option sane re e (handled st') si ≡ some (e', st'')
      → st''.triggered ≡ false
  check_option-once d e st si entry odesc odesc' {st' = mid} {st'' = last} g r ne idle o n c t o' n'
        c' =
      let inside : si < length st.opts = get_elem?-inside st.opts si g in
      let (v, fired, f, same) = check_option_inv sane re d st si g o r inside c in
      let fired_true : fired ≡ true = fired_of fired (ap Thread.triggered same) in
      let entry' = record entry { value = v } in
      let there : get_elem? (handled mid).opts si ≡ some entry' =
        ap (λ (x : Thread). get_elem? x.opts si) same
        ∙ get_elem?-set_self st.opts si entry' inside in
      let (w, again, f', same') =
        check_option_inv sane re e (handled mid) si there o' r (get_elem?-inside mid.opts si there)
          c' in
      let not_again : again ≡ false =
        some-injective _ _
          (sym f' ∙ fires_twice re odesc odesc' entry v w n n' ne (rw fired_true at f)) in
      ap Thread.triggered same' ∙ rw not_again refl
    where
      fired_of : (b : Bool) → mid.triggered ≡ (if b then true else st.triggered) → b ≡ true
      fired_of true q = refl
      fired_of false q = ground arith
