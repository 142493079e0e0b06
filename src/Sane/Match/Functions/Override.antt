-- ===== src/Sane/Match/Functions/Override.antt =====
-- Which function an option has after sane_find_matching_functions of src/scanbd/sane.c.
use scanbd.Prelude.{
  ℕ, zero, suc, ◌+◌, ◌-◌, ◌≤◌, ◌<◌, ◌≡◌, refl, sym, subst, ◌∙◌, inl, inr, Bool, true, false, ◌&&◌,
  not, Option, none, some, List, [], ◌∷◌, ◌==◌, if◌then◌else◌, leb, ltb, leb-true, ltb-true, ==_iff,
  ap, Bool-cases, Option-cases, is_neg, take, arith,
}
use mathlib.Core.Option.{some-injective}
use scanbd.Sane.Types.{Driver, Regex, ValueType, Thread, DevFunction, Descriptor, Function, Section}
use scanbd.Sane.Match.Search.{candidate}
use scanbd.Sane.Match.Options.Entry.{HasTypes}
use scanbd.Sane.Match.Tables.{InRange}
use scanbd.Sane.Match.Lookup.{lookup_number, lookup-enter}
use scanbd.Sane.Match.Functions.Bounds.{
  FunctionsValid, entry_for, install_function_lem, function_option-Keeps, one_function-Keeps,
  all_functions-Keeps,
}
use scanbd.Sane.Match.Functions.{
  install_function, function_option, function_options, one_function, all_functions,
  sane_find_matching_functions,
}

-- The function that a thread has for an option.
abbrev pub function_of : ℕ → Thread → Option DevFunction
function_of o st =
    lookup_number DevFunction.number o (take st.num_of_options_with_functions st.functions)

abbrev pub is_some {ℓ} : {A : Type ℓ} → Option A → Bool
is_some none = false
is_some (some a) = true

install_function-function_of :
    (ty : ℕ → Option ValueType) (o : ℕ) (st : Thread) (fn : Function) (opt : ℕ)
    → FunctionsValid ty st
    → InRange st.num_of_options opt
    → {st' : Thread} → install_function st fn opt ≡ some st'
    → function_of o st' ≡ (if opt == o then some (entry_for fn opt) else function_of o st)
install_function-function_of ty o st fn opt v r h =
    let (i, eq, slot, room) = install_function_lem ty st fn opt v r in
    subst (λ t. function_of o t ≡ (if opt == o then some (entry_for fn opt) else function_of o st))
      (some-injective _ _ (sym eq ∙ h))
      (lookup-enter DevFunction.number o st.num_of_options st.num_of_options_with_functions opt
        st.functions (entry_for fn opt) v.table refl room slot v.distinct)

-- One round more of the loop over the options.
widen :
    (o opt k : ℕ) (b : Bool) (x y : Option DevFunction)
    → (if (leb (suc opt) o && ltb o (suc opt + k)) && b
        then x
        else if (opt == o) && b
        then x
        else y)
      ≡ (if (leb opt o && ltb o (opt + suc k)) && b then x else y)
widen o opt k true x y = ground arith
widen o opt k false x y = ground arith

module _ {D : Type 0} (sane : Driver D) (re : Regex) (d : D) where
  -- A function applies to an option when its filter compiles and selects it.
  abbrev pub applies : Function → ℕ → Bool
  applies fn o =
      not (is_neg (re.regcomp fn.filter)) && is_some (candidate re fn.filter (sane.descriptor d o))

  -- The last of the functions that apply, or what there was before.
  abbrev pub last_applying : List Function → ℕ → Option DevFunction → Option DevFunction
  last_applying [] o before = before
  last_applying (fn ∷ fns) o before =
      last_applying fns o (if applies fn o then some (entry_for fn o) else before)

  abbrev selects : Function → ℕ → Bool
  selects fn o = is_some (candidate re fn.filter (sane.descriptor d o))

  unselected :
      (o : ℕ) (fn : Function) (opt : ℕ) (st : Thread)
      → candidate re fn.filter (sane.descriptor d opt) ≡ none
      → (if (opt == o) && selects fn o then some (entry_for fn o) else function_of o st)
        ≡ function_of o st
  unselected o fn opt st e = elim (Bool-cases (opt == o)) [
    | inl q ↦ let same : opt ≡ o = (==_iff opt o).0 q in rw (q, ← same, e) refl
    | inr q ↦ rw q refl
  ]

  selected :
      (o : ℕ) (fn : Function) (opt : ℕ) (st : Thread) {odesc : Descriptor}
      → candidate re fn.filter (sane.descriptor d opt) ≡ some odesc
      → (if (opt == o) && selects fn o then some (entry_for fn o) else function_of o st)
        ≡ (if opt == o then some (entry_for fn opt) else function_of o st)
  selected o fn opt st e = elim (Bool-cases (opt == o)) [
    | inl q ↦ let same : opt ≡ o = (==_iff opt o).0 q in rw (q, ← same, e) refl
    | inr q ↦ rw q refl
  ]

module _ {D : Type 0} (sane : Driver D) (re : Regex) (d : D) (ty : ℕ → Option ValueType)
    (typed : HasTypes sane ty) where
  function_option-function_of :
      (o : ℕ) (fn : Function) (opt : ℕ) (st : Thread)
      → FunctionsValid ty st
      → InRange st.num_of_options opt
      → {st' : Thread} → function_option sane re d fn opt st ≡ some st'
      → function_of o st'
        ≡ (if (opt == o) && selects sane re d fn o then some (entry_for fn o) else function_of o st)
  unfolding function_option
  function_option-function_of o fn opt st v r {st'} h =
      elim (Option-cases (candidate re fn.filter (sane.descriptor d opt))) [
        | inl e ↦
            ap (function_of o) (some-injective _ _ (sym (rw (e, function_option) at h)))
            ∙ sym (unselected sane re d o fn opt st e)
        | inr (_, e) ↦
            install_function-function_of ty o st fn opt v r (rw (e, function_option) at h)
            ∙ sym (selected sane re d o fn opt st e)
      ]

  function_options-function_of :
      (o : ℕ) (fn : Function) (k opt : ℕ) (st : Thread)
      → FunctionsValid ty st
      → 0 < opt
      → opt + k ≤ st.num_of_options
      → {st' : Thread} → function_options sane re d fn k opt st ≡ some st'
      → function_of o st' ≡ (
          if (leb opt o && ltb o (opt + k)) && selects sane re d fn o
          then some (entry_for fn o)
          else function_of o st)
  unfolding function_options
  function_options-function_of o fn zero opt st v p h e = ground (arith)
  function_options-function_of o fn (suc k) opt st v p h {st'} e =
      let (st₁, e₁, v₁, f₁) =
        function_option-Keeps sane re d ty typed fn opt st v (p, omega arith) in
      function_options-function_of o fn k (suc opt) st₁ v₁ (omega arith)
        (omega (arith, h, ap Thread.num_of_options f₁)) (rw e₁ at e)
      ∙ rw (function_option-function_of o fn opt st v (p, omega arith) e₁)
          (widen o opt k (selects sane re d fn o) (some (entry_for fn o)) (function_of o st))

  one_function-function_of :
      (o : ℕ) (fn : Function) (st : Thread)
      → FunctionsValid ty st
      → InRange st.num_of_options o
      → {st' : Thread} → one_function sane re d fn st ≡ some st'
      → function_of o st'
        ≡ (if applies sane re d fn o then some (entry_for fn o) else function_of o st)
  unfolding one_function
  one_function-function_of o fn st v r {st'} e = elim (Bool-cases (is_neg (re.regcomp fn.filter))) [
    | inl neg ↦ rw neg (ap (function_of o) (some-injective _ _ (sym (rw (neg, one_function) at e))))
    | inr good ↦
        function_options-function_of o fn (st.num_of_options - 1) 1 st v (omega arith) (omega arith)
          (rw (good, one_function) at e)
        ∙ rw (good, leb-true 1 o r.0, ltb-true o (1 + (st.num_of_options - 1)) (omega arith)) refl
  ]

  all_functions-function_of :
      (o : ℕ) (fns : List Function) (st : Thread)
      → FunctionsValid ty st
      → InRange st.num_of_options o
      → {st' : Thread} → all_functions sane re d fns st ≡ some st'
      → function_of o st' ≡ last_applying sane re d fns o (function_of o st)
  unfolding all_functions
  all_functions-function_of o [] st v r e = ap (function_of o) (some-injective _ _ (sym e))
  all_functions-function_of o (fn ∷ fns) st v r e =
      let (st₁, e₁, v₁, f₁) = one_function-Keeps sane re d ty typed fn st v (omega (arith, r)) in
      all_functions-function_of o fns st₁ v₁ (rw (ap Thread.num_of_options f₁) r) (rw e₁ at e)
      ∙ rw (one_function-function_of o fn st v r e₁) refl

  -- After sane_find_matching_functions has returned, each option of the device has the last
  -- function of the section that applies to it; an option to which none applies has the function
  -- that it had before. The condition is that the type of an option does not change while its
  -- device is open. The table is valid at first and the option one of the device's.
  pub sane_find_matching_functions-last :
      (o : ℕ) (st : Thread) (sec : Section)
      → FunctionsValid ty st
      → InRange st.num_of_options o
      → (st' : Thread) × (sane_find_matching_functions sane re d st sec ≡ some st')
        × (function_of o st' ≡ last_applying sane re d sec.functions o (function_of o st))
  unfolding sane_find_matching_functions
  sane_find_matching_functions-last o st sec v r =
      let (st', e, _, _) =
        all_functions-Keeps sane re d ty typed sec.functions st v (omega (arith, r)) in
      (st', e, all_functions-function_of o sec.functions st v r e)
