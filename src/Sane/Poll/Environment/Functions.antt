-- ===== src/Sane/Poll/Environment/Functions.antt =====
-- The strings of the functions in the environment that sane_poll of src/scanbd/sane.c builds.
use scanbd.Prelude.{
  ℕ, zero, suc, ◌≤◌, ◌≡◌, refl, sym, ap, inl, inr, Bool, true, false, ◌||◌, ◌&&◌, Option, none,
  some, List, [], ◌∷◌, CString, Bool-cases, ◌==◌, length, take, All, arith,
}
use scanbd.Sane.Types.{Driver, OptValue, ValueType, Thread, DevOption, DevFunction}
use scanbd.Sane.Value.Read.{is_string, get_sane_option_value}
use scanbd.Sane.Match.Search.{find_number-first}
use scanbd.Sane.Match.Options.Entry.{HasTypes, is_accepted}
use scanbd.Sane.Match.Options.Bounds.{OptionsValid}
use scanbd.Sane.Poll.Check.Ready.{descriptor_of}
use scanbd.Sane.Poll.Check.Safe.{open_descriptor_run}
use scanbd.Sane.Poll.Environment.{
  assign, or_null, is_button, is_number, function_value, function_string, function_strings,
}
use scanbd.Sane.Value.Read.{sane_option_value_init}
use scanbd.Prelude.{decimal}

abbrev pub button_option : Option ValueType → Bool
button_option none = false
button_option (some t) = is_button t

-- A value of the type is printed, while a button is polled or not: that of a button is only then.
abbrev pub can_print : Bool → Option ValueType → Bool
can_print polled none = false
can_print polled (some t) = is_number t || (polled || is_string t)

-- The values of the first `k` functions are printed.
abbrev pub all_print : Bool → (ℕ → Option ValueType) → ℕ → List DevFunction → Bool
all_print polled ty zero fs = true
all_print polled ty (suc k) [] = true
all_print polled ty (suc k) (f ∷ fs) = can_print polled (ty f.number) && all_print polled ty k fs

printed_string : (n b s : Bool) → (n || (b || s)) ≡ true → (n || b) ≡ false → s ≡ true
printed_string n b s h e = ground arith

not_printed : (n b s : Bool) → (n || (b || s)) ≡ false → ((n || b) ≡ false) × (s ≡ false)
not_printed n b s h = ground arith

both_true : (a b : Bool) → (a && b) ≡ true → (a ≡ true) × (b ≡ true)
both_true a b h = ground arith

function_value-some :
    {D : Type 0} (sane : Driver D) (d : D) (st : Thread) (f : DevFunction)
    → st.num_of_options_with_scripts ≤ length st.opts
    → (v : OptValue) × (d' : D) × (function_value sane d st f ≡ some (v, d'))
unfolding function_value
function_value-some sane d st f h =
    let count = st.num_of_options_with_scripts in
    let (o, found, _) = find_number-first DevOption.number count st.opts f.number h in
    elim (Bool-cases (o == count)) [
      | inl e ↦ let (v, d') = get_sane_option_value sane d f.number in (v, d', rw (found, e) refl)
      | inr e ↦ (sane_option_value_init, d, rw (found, e) refl)
    ]

module _ {D : Type 0} (sane : Driver D) (multiple : Bool) (ty : ℕ → Option ValueType)
    (typed : HasTypes sane ty) (polled : ValueType) where
  function_string-some :
      (d : D) (st : Thread) (f : DevFunction)
      → OptionsValid multiple ty st
      → st.is_open ≡ true
      → is_accepted (ty f.number) ≡ true
      → can_print (is_button polled) (ty f.number) ≡ true
      → (s : CString) × (d' : D) × (function_string sane polled d st f ≡ some (s, d'))
  unfolding function_string
  function_string-some d st f v opened acc prints =
      let (fdesc, found) = descriptor_of sane d f.number typed acc in
      let known : can_print (is_button polled) (some fdesc.type) ≡ true =
        rw (sym (typed d f.number), found) at prints in
      let (value, d', ev) =
        function_value-some sane d st f (omega (arith, v.table.array, v.table.used)) in
      let od = open_descriptor_run sane d st f.number opened found in
      elim (Bool-cases (is_number fdesc.type || is_button polled)) [
        | inl e ↦ (assign (or_null f.env) (decimal value.num_value), d', rw (od, ev, e) refl)
        | inr e ↦ (
          assign (or_null f.env) (or_null value.str),
          d',
          rw
              (
                od,
                ev,
                e,
                printed_string (is_number fdesc.type) (is_button polled) (is_string fdesc.type)
                    known e,
              )
              refl,
        )
      ]

  function_string-none :
      (d : D) (st : Thread) (f : DevFunction)
      → OptionsValid multiple ty st
      → st.is_open ≡ true
      → is_accepted (ty f.number) ≡ true
      → can_print (is_button polled) (ty f.number) ≡ false
      → function_string sane polled d st f ≡ none
  unfolding function_string
  function_string-none d st f v opened acc prints =
      let (fdesc, found) = descriptor_of sane d f.number typed acc in
      let known : can_print (is_button polled) (some fdesc.type) ≡ false =
        rw (sym (typed d f.number), found) at prints in
      let (value, d', ev) =
        function_value-some sane d st f (omega (arith, v.table.array, v.table.used)) in
      let od = open_descriptor_run sane d st f.number opened found in
      let (number, text) =
        not_printed (is_number fdesc.type) (is_button polled) (is_string fdesc.type) known in
      rw (od, ev, number, text) refl

  pub function_strings-some :
      (k : ℕ) (fs : List DevFunction) (d : D) (st : Thread)
      → OptionsValid multiple ty st
      → st.is_open ≡ true
      → k ≤ length fs
      → All (λ f. is_accepted (ty f.number) ≡ true) (take k fs)
      → all_print (is_button polled) ty k fs ≡ true
      → (ss : List CString) × (d' : D) × (function_strings sane polled k fs d st ≡ some (ss, d'))
        × (length ss ≡ k)
  unfolding function_strings
  function_strings-some zero fs d st v opened h acc prints = ([], d, refl, refl)
  function_strings-some (suc k) [] d st v opened h acc prints = absurd (omega arith)
  function_strings-some (suc k) (f ∷ fs) d st v opened h acc prints =
      let (first, rest) = both_true _ _ prints in
      let (s, d', e) = function_string-some d st f v opened acc.0 first in
      let (ss, d'', e', n) = function_strings-some k fs d' st v opened (omega arith) acc.1 rest in
      (s ∷ ss, d'', rw (e, e') refl, ap suc n)

  -- A function whose value is not printed fails the assertion behind the tests of its type.
  pub function_strings-none :
      (k : ℕ) (fs : List DevFunction) (d : D) (st : Thread)
      → OptionsValid multiple ty st
      → st.is_open ≡ true
      → k ≤ length fs
      → All (λ f. is_accepted (ty f.number) ≡ true) (take k fs)
      → all_print (is_button polled) ty k fs ≡ false
      → function_strings sane polled k fs d st ≡ none
  unfolding function_strings
  function_strings-none zero fs d st v opened h acc prints = cc
  function_strings-none (suc k) [] d st v opened h acc prints = cc
  function_strings-none (suc k) (f ∷ fs) d st v opened h acc prints =
      elim (Bool-cases (can_print (is_button polled) (ty f.number))) [
        | inl e ↦
            let (s, d', e') = function_string-some d st f v opened acc.0 e in
            let rest =
              function_strings-none k fs d' st v opened (omega arith) acc.1 (rw e at prints) in
            rw (e', rest) refl
        | inr e ↦ rw (function_string-none d st f v opened acc.0 e) refl
      ]
