-- ===== src/Sane/Poll/Setup/Tables.antt =====
-- The tables that sane_poll of src/scanbd/sane.c allocates and fills.
use scanbd.Prelude.{
  ℕ, suc, ◌<◌, ◌≡◌, refl, sym, ap, subst, ◌∙◌, Bool, Option, length-replicate, arith,
}
use scanbd.Sane.Types.{ValueType, Thread}
use scanbd.Sane.Match.Options.Bounds.{OptionsValid, Frame as OptionsFrame}
use scanbd.Sane.Match.Functions.Bounds.{FunctionsValid, Frame as FunctionsFrame}
use scanbd.Sane.Poll.Setup.{empty_option, empty_function, allocate}

-- What the polling loop relies on.
pub record TablesValid (multiple : Bool) (ty : ℕ → Option ValueType) (st : Thread) : Type 0 where
  pub some_option : 0 < st.num_of_options
  pub options : OptionsValid multiple ty st
  pub functions : FunctionsValid ty st

-- The rest of a thread, which the filling of the tables leaves alone.
abbrev pub SameDevice : Thread → Thread → Type 0
SameDevice st st' =
    (st'.num_of_options ≡ st.num_of_options)
    × (st'.dev_name ≡ st.dev_name)
    × (st'.is_open ≡ st.is_open)
    × (st'.triggered ≡ st.triggered)
    × (st'.triggered_option ≡ st.triggered_option)

pub SameDevice-trans : (s t u : Thread) → SameDevice s t → SameDevice t u → SameDevice s u
SameDevice-trans s t u (a, b, c, d, e) (a', b', c', d', e') =
    (a' ∙ a, b' ∙ b, c' ∙ c, d' ∙ d, e' ∙ e)

pub SameDevice-refl : (s : Thread) → SameDevice s s
SameDevice-refl s = (refl, refl, refl, refl, refl)

pub options_same : (s t : Thread) → OptionsFrame s t → SameDevice s t
options_same s t f = (
  ap Thread.num_of_options f,
  ap Thread.dev_name f,
  ap Thread.is_open f,
  ap Thread.triggered f,
  ap Thread.triggered_option f,
)

pub functions_same : (s t : Thread) → FunctionsFrame s t → SameDevice s t
functions_same s t f = (
  ap Thread.num_of_options f,
  ap Thread.dev_name f,
  ap Thread.is_open f,
  ap Thread.triggered f,
  ap Thread.triggered_option f,
)

-- Each table is valid on its own.
pub functions_moved :
    {ty : ℕ → Option ValueType} (s t : Thread)
    → OptionsFrame s t
    → FunctionsValid ty s
    → FunctionsValid ty t
functions_moved {ty} s t f v =
    subst (FunctionsValid ty) (sym f)
      (record { table = v.table; distinct = v.distinct; accepted = v.accepted })

pub options_moved :
    {multiple : Bool} {ty : ℕ → Option ValueType} (s t : Thread)
    → FunctionsFrame s t
    → OptionsValid multiple ty s
    → OptionsValid multiple ty t
options_moved {multiple} {ty} s t f v =
    subst (OptionsValid multiple ty) (sym f)
      (record { table = v.table; distinct = v.distinct; ready = v.ready })

pub allocate-TablesValid :
    (multiple : Bool) (ty : ℕ → Option ValueType) (n : ℕ) (st : Thread)
    → TablesValid multiple ty (allocate (suc n) st)
unfolding allocate
allocate-TablesValid multiple ty n st = record {
  some_option = omega arith;
  options = record {
    table = record {
      array = length-replicate (suc n) empty_option;
      used = omega arith;
      ranged = tt;
    };
    distinct = λ one. tt;
    ready = tt;
  };
  functions = record {
    table = record {
      array = length-replicate (suc n) empty_function;
      used = omega arith;
      ranged = tt;
    };
    distinct = tt;
    accepted = tt;
  };
}
