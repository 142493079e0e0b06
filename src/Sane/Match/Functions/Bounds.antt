-- ===== src/Sane/Match/Functions/Bounds.antt =====
-- The table of functions after sane_find_matching_functions of src/scanbd/sane.c.
use scanbd.Prelude.{
  ℕ, zero, suc, ◌+◌, ◌-◌, ◌≤◌, ◌<◌, ◌≡◌, refl, sym, ap, ◌∙◌, All, take, true, inl, inr, Option,
  some, List, [], ◌∷◌, Bool-cases, Option-cases, is_neg, set, store-set, Distinct, arith,
}
use mathlib.Core.Option
use scanbd.Sane.Types.{Descriptor, Driver, Regex, ValueType, Thread, DevFunction, Function, Section}
use scanbd.Sane.Match.Search.{candidate, candidate-type, Slot, find_number-Slot}
use scanbd.Sane.Match.Tables.{
  InRange, IsTable, numbers, count_after, Slot-le, Slot-room, enter-IsTable, enter-Distinct,
  All-enter,
}
use scanbd.Sane.Match.Options.Entry.{HasTypes, is_accepted}
use scanbd.Sane.Match.Functions.{
  install_function, function_option, function_options, one_function, all_functions,
  sane_find_matching_functions,
}

-- The option numbers of the functions in use.
abbrev pub function_numbers : Thread → List ℕ
function_numbers st = numbers DevFunction.number st.num_of_options_with_functions st.functions

pub record FunctionsValid (ty : ℕ → Option ValueType) (st : Thread) : Type 0 where
  pub table :
      IsTable DevFunction.number st.num_of_options st.num_of_options_with_functions st.functions
  pub distinct : Distinct (function_numbers st)
  pub accepted :
      All
        (λ f. is_accepted (ty f.number) ≡ true)
        (take st.num_of_options_with_functions st.functions)

-- The entry that is made for an option.
abbrev pub entry_for : Function → ℕ → DevFunction
entry_for fn opt = record { number = opt; env = some fn.env }

-- The thread after the entry.
abbrev pub entered : Thread → Function → ℕ → ℕ → Thread
entered st fn opt i = record st {
  functions = set st.functions i (entry_for fn opt);
  num_of_options_with_functions = count_after i st.num_of_options_with_functions;
}

-- Where an option's function is entered, and that it is inside the array.
pub install_function_lem :
    (ty : ℕ → Option ValueType) (st : Thread) (fn : Function) (opt : ℕ)
    → FunctionsValid ty st
    → InRange st.num_of_options opt
    → (i : ℕ) × (install_function st fn opt ≡ some (entered st fn opt i))
      × Slot st.num_of_options_with_functions (function_numbers st) opt i
      × (i < st.num_of_options)
unfolding install_function
install_function_lem ty st fn opt v o =
    let t = v.table in
    let (i, found, slot) =
      find_number-Slot DevFunction.number st.num_of_options_with_functions st.functions opt 0
        (omega (arith, t.array, t.used)) in
    let room : i < st.num_of_options =
      Slot-room DevFunction.number st.num_of_options st.num_of_options_with_functions opt
        st.functions t v.distinct o slot in
    (
      i,
      ground (arith, found, store-set st.functions i (entry_for fn opt), t.array, room),
      slot,
      room,
    )

-- Only the table of functions has changed.
abbrev pub Frame : Thread → Thread → Type 0
Frame st st' = st' ≡ record st {
  functions = st'.functions;
  num_of_options_with_functions = st'.num_of_options_with_functions;
}

Frame-trans : (s t u : Thread) → Frame s t → Frame t u → Frame s u
Frame-trans s t u f g =
    g
    ∙ ap
        (λ (x : Thread). record x {
          functions = u.functions;
          num_of_options_with_functions = u.num_of_options_with_functions;
        })
        f

-- What a function that returns a thread keeps: it does not fault, the table of functions stays
-- valid, and nothing else of the thread changes.
abbrev pub Keeps : (ℕ → Option ValueType) → Thread → Option Thread → Type 0
Keeps ty st r = (st' : Thread) × (r ≡ some st') × FunctionsValid ty st' × Frame st st'

install_function-Keeps :
    (ty : ℕ → Option ValueType) (st : Thread) (fn : Function) (opt : ℕ)
    → FunctionsValid ty st
    → InRange st.num_of_options opt
    → is_accepted (ty opt) ≡ true
    → Keeps ty st (install_function st fn opt)
install_function-Keeps ty st fn opt v o acc =
    let (i, eq, slot, room) = install_function_lem ty st fn opt v o in
    let entry = entry_for fn opt in
    (
      entered st fn opt i,
      eq,
      record {
        table =
            enter-IsTable DevFunction.number st.num_of_options st.num_of_options_with_functions opt
              st.functions entry v.table refl o room (Slot-le _ opt _ slot);
        distinct =
            enter-Distinct DevFunction.number st.num_of_options st.num_of_options_with_functions opt
              st.functions entry v.table refl room slot v.distinct;
        accepted =
            All-enter DevFunction.number (λ f. is_accepted (ty f.number) ≡ true)
              st.num_of_options_with_functions st.functions entry
              (omega (arith, room, v.table.array)) (Slot-le _ opt _ slot) acc v.accepted;
      },
      refl,
    )

module _ {D : Type 0} (sane : Driver D) (re : Regex) (d : D) (ty : ℕ → Option ValueType)
    (typed : HasTypes sane ty) where
  pub function_option-Keeps :
      (fn : Function) (opt : ℕ) (st : Thread)
      → FunctionsValid ty st
      → InRange st.num_of_options opt
      → Keeps ty st (function_option sane re d fn opt st)
  unfolding function_option
  function_option-Keeps fn opt st v o =
      elim (Option-cases (candidate re fn.filter (sane.descriptor d opt))) [
        | inl e ↦ rw (e, function_option) (st, refl, v, refl)
        | inr (odesc, e) ↦
            let (found, acc) = candidate-type re fn.filter (sane.descriptor d opt) e in
            let typed_as : ty opt ≡ some odesc.type =
              sym (typed d opt) ∙ ap (Option.map Descriptor.type) found in
            rw (e, function_option) (install_function-Keeps ty st fn opt v o (rw typed_as acc))
      ]

  pub function_options-Keeps :
      (fn : Function) (k opt : ℕ) (st : Thread)
      → FunctionsValid ty st
      → 0 < opt
      → opt + k ≤ st.num_of_options
      → Keeps ty st (function_options sane re d fn k opt st)
  unfolding function_options
  function_options-Keeps fn zero opt st v p h = (st, refl, v, refl)
  function_options-Keeps fn (suc k) opt st v p h =
      let (st', e, v', f) = function_option-Keeps fn opt st v (p, omega arith) in
      let (st'', e', v'', f') =
        function_options-Keeps fn k (suc opt) st' v' (omega arith)
          (omega (arith, h, ap Thread.num_of_options f)) in
      (st'', rw e e', v'', Frame-trans st st' st'' f f')

  pub one_function-Keeps :
      (fn : Function) (st : Thread)
      → FunctionsValid ty st
      → 0 < st.num_of_options
      → Keeps ty st (one_function sane re d fn st)
  unfolding one_function
  one_function-Keeps fn st v p = elim (Bool-cases (is_neg (re.regcomp fn.filter))) [
    | inl e ↦ rw e (st, refl, v, refl)
    | inr e ↦
        rw e (function_options-Keeps fn (st.num_of_options - 1) 1 st v (omega arith) (omega arith))
  ]

  pub all_functions-Keeps :
      (fns : List Function) (st : Thread)
      → FunctionsValid ty st
      → 0 < st.num_of_options
      → Keeps ty st (all_functions sane re d fns st)
  unfolding all_functions
  all_functions-Keeps [] st v p = (st, refl, v, refl)
  all_functions-Keeps (fn ∷ fns) st v p =
      let (st', e, v', f) = one_function-Keeps fn st v p in
      let (st'', e', v'', f') =
        all_functions-Keeps fns st' v' (omega (arith, p, ap Thread.num_of_options f)) in
      (st'', rw e e', v'', Frame-trans st st' st'' f f')

  -- Started on a valid table of a device with an option, sane_find_matching_functions never
  -- writes or reads outside st->functions: it returns, it changes nothing of the thread but that
  -- table, and the table is valid again, with the numbers of the options in range and distinct.
  -- The condition is that the type of an option does not change while its device is open.
  pub sane_find_matching_functions-Keeps :
      (st : Thread) (sec : Section)
      → FunctionsValid ty st
      → 0 < st.num_of_options
      → Keeps ty st (sane_find_matching_functions sane re d st sec)
  unfolding sane_find_matching_functions
  sane_find_matching_functions-Keeps st sec v p = all_functions-Keeps sec.functions st v p
