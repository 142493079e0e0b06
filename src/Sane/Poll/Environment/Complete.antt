-- ===== src/Sane/Poll/Environment/Complete.antt =====
-- When the environment that sane_poll of src/scanbd/sane.c builds for a script is complete.
use scanbd.Prelude.{
  ℕ, ◌+◌, ◌<◌, ◌≡◌, refl, sym, ap, ◌∙◌, inl, inr, Bool, true, false, ◌&&◌, ◌||◌, Option, none, some,
  List, CString, lit, Option-cases, Bool-cases, ◌==◌, length, get_elem?, get_elem?-lt,
  if◌then◌else◌, arith,
}
use scanbd.Sane.Types.{Driver, ValueType, Thread, DevOption}
use scanbd.Sane.Match.Options.Entry.{HasTypes, is_set}
use scanbd.Sane.Match.Options.Bounds.{OptionsValid}
use scanbd.Sane.Match.Functions.Bounds.{FunctionsValid}
use scanbd.Sane.Poll.Environment.{
  Process, is_button, function_strings, user_string, home_string, environment,
}
use scanbd.Sane.Poll.Environment.Functions.{all_print, function_strings-some, function_strings-none}
use scanbd.Sane.Poll.Environment.Parts.{has_all, parts, parts-count, fills, or_passwd-is_set}

-- The assertions on the user, the home and the length, for parts that are there.
module _ {D : Type 0} (sane : Driver D) where
  environment_run :
      (p : Process) (polled : ValueType) (d : D) (st : Thread) (triggered : ℕ) {fs : List CString}
      {d' : D} {user home : CString} {action : DevOption}
      → function_strings sane polled st.num_of_options_with_functions st.functions d st
        ≡ some (fs, d')
      → user_string p ≡ some user
      → home_string p ≡ some home
      → get_elem? st.opts triggered ≡ some action
      → environment sane p polled d st triggered ≡ (
          if length (parts p st fs user home action) == (st.num_of_options_with_functions + 6)
          then some (parts p st fs user home action, d')
          else none)
  unfolding environment
  environment_run p polled d st triggered fe ue he ae = rw (fe, ue, he, ae) refl

  environment_functions :
      (p : Process) (polled : ValueType) (d : D) (st : Thread) (triggered : ℕ)
      → function_strings sane polled st.num_of_options_with_functions st.functions d st ≡ none
      → environment sane p polled d st triggered ≡ none
  unfolding environment
  environment_functions p polled d st triggered fe = rw fe refl

  environment_user :
      (p : Process) (polled : ValueType) (d : D) (st : Thread) (triggered : ℕ) {fs : List CString}
      {d' : D}
      → function_strings sane polled st.num_of_options_with_functions st.functions d st
        ≡ some (fs, d')
      → user_string p ≡ none
      → environment sane p polled d st triggered ≡ none
  unfolding environment
  environment_user p polled d st triggered fe ue = rw (fe, ue) refl

  environment_home :
      (p : Process) (polled : ValueType) (d : D) (st : Thread) (triggered : ℕ) {fs : List CString}
      {d' : D} {user : CString}
      → function_strings sane polled st.num_of_options_with_functions st.functions d st
        ≡ some (fs, d')
      → user_string p ≡ some user
      → home_string p ≡ none
      → environment sane p polled d st triggered ≡ none
  unfolding environment
  environment_home p polled d st triggered fe ue he = rw (fe, ue, he) refl

is_set_if {ℓ} : {A : Type ℓ} (b : Bool) (a : A) → is_set (if b then some a else none) ≡ b
is_set_if true a = refl
is_set_if false a = refl

pub has_user :
    (p : Process) → is_set (user_string p) ≡ (is_set (p.getenv (lit "USER")) || is_set p.passwd)
has_user p = or_passwd-is_set (lit "USER") (λ pwd. pwd.0) (p.getenv (lit "USER")) p.passwd

pub has_home :
    (p : Process) → is_set (home_string p) ≡ (is_set (p.getenv (lit "HOME")) || is_set p.passwd)
has_home p = or_passwd-is_set (lit "HOME") (λ pwd. pwd.1) (p.getenv (lit "HOME")) p.passwd

-- The conjunctions at the assertions.
pub no_user : (a u h c : Bool) → u ≡ false → false ≡ (a && (u && (h && c)))
no_user a u h c e = ground arith

pub no_home : (a u h c : Bool) → h ≡ false → false ≡ (a && (u && (h && c)))
no_home a u h c e = ground arith

pub both : (a u h c : Bool) → u ≡ true → h ≡ true → (a && c) ≡ (a && (u && (h && c)))
both a u h c e e' = ground arith

-- The environment when every function is printed.
pub environment_printed :
    {D : Type 0} (sane : Driver D) (multiple : Bool) (ty : ℕ → Option ValueType) (p : Process)
    (polled : ValueType) (d : D) (st : Thread) (triggered : ℕ)
    → HasTypes sane ty
    → OptionsValid multiple ty st
    → FunctionsValid ty st
    → st.is_open ≡ true
    → triggered < st.num_of_options_with_scripts
    → all_print (is_button polled) ty st.num_of_options_with_functions st.functions ≡ true
    → is_set (environment sane p polled d st triggered) ≡ has_all p
environment_printed sane multiple ty p polled d st triggered typed v fv opened inside prints =
    let k = st.num_of_options_with_functions in
    let h = is_set (p.getenv (lit "HOME")) || is_set p.passwd in
    let c = is_set p.device_env && is_set p.action_env in
    let (fs, d', fe, n) =
      function_strings-some sane multiple ty typed polled k st.functions d st v opened
        (omega (arith, fv.table.array, fv.table.used)) fv.accepted prints in
    let (action, ae) =
      get_elem?-lt st.opts triggered (omega (arith, v.table.array, v.table.used)) in
    elim (Option-cases (user_string p)) [
      | inl ue ↦
          ap is_set (environment_user sane p polled d st triggered fe ue)
          ∙ no_user _ _ h c (sym (has_user p) ∙ ap is_set ue)
      | inr (user, ue) ↦ elim (Option-cases (home_string p)) [
        | inl he ↦
            ap is_set (environment_home sane p polled d st triggered fe ue he)
            ∙ no_home _ _ _ _ (sym (has_home p) ∙ ap is_set he)
        | inr (home, he) ↦
            ap is_set (environment_run sane p polled d st triggered fe ue he ae)
            ∙ (is_set_if _ _
                ∙ (fills _ k _ _ _ (parts-count p st fs user home action k n)
                    ∙ both _ _ _ _ (sym (has_user p) ∙ ap is_set ue)
                        (sym (has_home p) ∙ ap is_set he)))
      ]
    ]

-- With valid tables and an open device, the environment of a triggered action in use is built,
-- and no assertion on the way fails, exactly if no function's option is a button, unless the option
-- that is checked meanwhile is one, PWD or the working directory is known, USER and HOME are set or
-- the password entry is there, and both names of the environment section are configured. The
-- condition is that the type of an option does not change while its device is open.
pub environment-has_all :
    {D : Type 0} (sane : Driver D) (multiple : Bool) (ty : ℕ → Option ValueType) (p : Process)
    (polled : ValueType) (d : D) (st : Thread) (triggered : ℕ)
    → HasTypes sane ty
    → OptionsValid multiple ty st
    → FunctionsValid ty st
    → st.is_open ≡ true
    → triggered < st.num_of_options_with_scripts
    → is_set (environment sane p polled d st triggered)
      ≡ (all_print (is_button polled) ty st.num_of_options_with_functions st.functions && has_all p)
environment-has_all sane multiple ty p polled d st triggered typed v fv opened inside =
    let k = st.num_of_options_with_functions in
    elim (Bool-cases (all_print (is_button polled) ty k st.functions)) [
      | inl e ↦
          rw e (
            environment_printed sane multiple ty p polled d st triggered typed v fv opened inside e)
      | inr e ↦
          let none_built =
            function_strings-none sane multiple ty typed polled k st.functions d st v opened
              (omega (arith, fv.table.array, fv.table.used)) fv.accepted e in
          rw e (ap is_set (environment_functions sane p polled d st triggered none_built))
    ]
