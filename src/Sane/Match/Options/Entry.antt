-- ===== src/Sane/Match/Options/Entry.antt =====
-- The entry that sane_find_matching_options of src/scanbd/sane.c makes for an option.
use scanbd.Prelude.{
  ℕ, ◌≡◌, refl, inl, inr, Bool, true, false, ◌&&◌, ◌||◌, not, Option, none, some, [], ◌∷◌, CString,
  Bool-cases, is_neg, arith,
}
use mathlib.Core.Option
use scanbd.Sane.Types.{
  Descriptor, Driver, Regex, OptValue, ValueType, type_string, DevOption, Action,
}
use scanbd.Sane.Value.Read.{get_sane_option_value, is_numerical, is_string}
use scanbd.Sane.Match.Options.{new_entry, script_of, numerical_entry, string_entry, common_entry}

abbrev pub is_set {ℓ} : {A : Type ℓ} → Option A → Bool
is_set none = false
is_set (some a) = true

-- The polling loop runs an entry with a script that is not empty.
abbrev pub runs_script : Option CString → Bool
runs_script none = false
runs_script (some []) = false
runs_script (some (c ∷ s)) = true

abbrev pub is_text : Option ValueType → Bool
is_text none = false
is_text (some t) = is_string t

abbrev pub has_string_trigger : DevOption → Bool
has_string_trigger o = is_set o.from_value.reg && (is_set o.to_value.reg && is_set o.value.str)

-- BOOL | INT | FIXED | BUTTON | STRING
abbrev pub is_accepted : Option ValueType → Bool
is_accepted none = false
is_accepted (some t) = is_numerical t || is_string t

-- An entry for an option of a given type that the polling loop can check.
abbrev pub is_ready : Option ValueType → DevOption → Bool
is_ready t o = is_accepted t && (runs_script o.script && (not (is_text t) || has_string_trigger o))

-- The type of every option is fixed while the device is open (the SANE standard).
abbrev pub HasTypes : {D : Type 0} → Driver D → (ℕ → Option ValueType) → Type 0
HasTypes {D} sane ty = (d : D) (n : ℕ) → Option.map Descriptor.type (sane.descriptor d n) ≡ ty n

-- regcomp returns zero or a positive error code (POSIX).
abbrev pub NeverNegative : Regex → Type 0
NeverNegative re = (pattern : CString) → is_neg (re.regcomp pattern) ≡ false

pub script_of-runs : (s : Option CString) → runs_script (some (script_of s)) ≡ true
script_of-runs none = refl
script_of-runs (some []) = refl
script_of-runs (some (c ∷ s)) = refl

not_both : (t : ValueType) → is_string t ≡ true → is_numerical t ≡ false
not_both type_string h = refl
not_both _ h = ground arith

not_text : (t : ValueType) → is_numerical t ≡ true → is_string t ≡ false
not_text type_string h = ground arith
not_text _ h = ground arith

-- The value of a string option has a string.
pub read-is_set :
    {D : Type 0} (sane : Driver D) (d : D) (n : ℕ) {odesc : Descriptor}
    → sane.descriptor d n ≡ some odesc
    → is_string odesc.type ≡ true
    → is_set (get_sane_option_value sane d n).0.str ≡ true
unfolding get_sane_option_value
read-is_set sane d n {odesc} e h =
    rw (e, get_sane_option_value) (rw (not_both odesc.type h, h) (ground arith))

-- The entry that is made for an accepted option counts, has its number, and is ready.
pub new_entry-is_ready :
    (re : Regex) (action : Action) (odesc : Descriptor) (opt : ℕ) (old : DevOption) (v : OptValue)
    → NeverNegative re
    → (is_numerical odesc.type || is_string odesc.type) ≡ true
    → (is_string odesc.type ≡ true → is_set v.str ≡ true)
    → (entry : DevOption) × (new_entry re action odesc opt old v ≡ some (entry, true))
      × (entry.number ≡ opt)
      × (is_ready (some odesc.type) entry ≡ true)
unfolding new_entry
new_entry-is_ready re action odesc opt old v nn acc h =
    elim (Bool-cases (is_numerical odesc.type)) [
      | inl num ↦ (
        numerical_entry action (common_entry action opt old) v,
        rw num,
        refl,
        rw (acc, script_of-runs action.script, not_text odesc.type num),
      )
      | inr other ↦
          let text : is_string odesc.type ≡ true = rw other at acc in
          (
            string_entry true action (common_entry action opt old) v,
            rw (other, text, nn action.str_from, nn action.str_to),
            refl,
            rw (acc, script_of-runs action.script, text, h text),
          )
    ]
