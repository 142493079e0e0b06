-- ===== src/Sane/Match/Functions.antt =====
-- sane_find_matching_functions of src/scanbd/sane.c. `none` is a fault: an access outside
-- st->functions, which has one entry for each option of the device.
pub mod Bounds
pub mod Override
use scanbd.Prelude.{
  ℕ, zero, suc, ◌-◌, ◌>>=◌, if◌then◌else◌, ◌==◌, Bool, Option, none, some, List, [], ◌∷◌, store,
  is_neg,
}
use scanbd.Sane.Types.{Driver, Regex, Thread, DevFunction, Function, Section}
use scanbd.Sane.Match.Search.{candidate, find_number}

-- Enter a function for an option, in the place of an earlier one for the same option.
unfoldable pub install_function : Thread → Function → ℕ → Option Thread
install_function st fn opt = do
  n ← find_number DevFunction.number st.num_of_options_with_functions st.functions opt 0
  fs ← store st.functions n (record { number = opt; env = some fn.env })
  some (record st {
    functions = fs;
    num_of_options_with_functions =
        if n == st.num_of_options_with_functions
        then suc st.num_of_options_with_functions
        else st.num_of_options_with_functions;
  })

module _ {D : Type 0} (sane : Driver D) (re : Regex) (d : D) where
  -- One round of the inner loop.
  unfoldable pub function_option : Function → ℕ → Thread → Option Thread
  function_option fn opt st = elim (candidate re fn.filter (sane.descriptor d opt)) [
    | none ↦ some st
    | some _ ↦ install_function st fn opt
  ]

  -- for (opt = ...; opt < st->num_of_options; opt += 1), with the rounds left.
  unfoldable pub function_options : Function → ℕ → ℕ → Thread → Option Thread
  function_options fn zero opt st = some st
  function_options fn (suc k) opt st = do
    st' ← function_option fn opt st
    function_options fn k (suc opt) st'

  -- A function whose filter does not compile (`ret < 0`) is passed over.
  unfoldable pub one_function : Function → Thread → Option Thread
  one_function fn st =
      if is_neg (re.regcomp fn.filter)
      then some st
      else function_options fn (st.num_of_options - 1) 1 st

  unfoldable pub all_functions : List Function → Thread → Option Thread
  all_functions [] st = some st
  all_functions (fn ∷ fns) st = do st' ← one_function fn st; all_functions fns st'

  unfoldable pub sane_find_matching_functions : Thread → Section → Option Thread
  sane_find_matching_functions st sec = all_functions sec.functions st
