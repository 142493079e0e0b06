-- ===== src/Sane/Poll/Environment.antt =====
-- The environment of an action's script, as sane_poll of src/scanbd/sane.c builds it. `none` is a
-- fault: a failed assertion or an access outside an array.
pub mod Complete
pub mod Functions
pub mod Parts
pub mod Unread
use scanbd.Prelude.{
  ℕ, zero, suc, ◌+◌, ◌>>=◌, if◌then◌else◌, ◌==◌, Bool, true, false, ◌||◌, Option, none, some, List,
  [], ◌∷◌, ◌++◌, CString, lit, decimal, length, take, get_elem?,
}
use scanbd.Sane.Types.{
  Descriptor, Driver, OptValue, ValueType, type_bool, type_int, type_fixed, type_button, Thread,
  DevOption, DevFunction,
}
use scanbd.Sane.Value.Read.{sane_option_value_init, get_sane_option_value, is_string}
use scanbd.Sane.Match.Search.{find_number}
use scanbd.Sane.Poll.Check.{open_descriptor}

-- What the process and the configuration hand over: getenv, getcwd, getpwuid(geteuid()) and the
-- names of the two variables of the environment section.
pub record Process : Type 0 where
  pub getenv : CString → Option CString
  pub getcwd : Option CString
  pub passwd : Option (CString × CString)
  pub device_env : Option CString
  pub action_env : Option CString

-- snprintf(env[e], NAME_MAX, "%s=%s", name, value), with NAME_MAX 255.
unfoldable pub assign : CString → CString → CString
assign name value = take 254 (name ++ (lit "=" ++ value))

abbrev pub is_button : ValueType → Bool
is_button type_button = true
is_button _ = false

-- The types whose values are printed as numbers, whatever is polled.
abbrev pub is_number : ValueType → Bool
is_number type_bool = true
is_number type_int = true
is_number type_fixed = true
is_number _ = false

-- What printf's `%s` prints for a pointer that may be NULL (as the GNU library does).
abbrev pub or_null : Option CString → CString
or_null none = lit "(null)"
or_null (some s) = s

module _ {D : Type 0} (sane : Driver D) where
  -- The value of a function's option: not read again if the option has an action.
  unfoldable pub function_value : D → Thread → DevFunction → Option (OptValue × D)
  function_value d st function = do
    o ← find_number DevOption.number st.num_of_options_with_scripts st.opts function.number 0
    if o == st.num_of_options_with_scripts
        then some (get_sane_option_value sane d function.number)
        else some (sane_option_value_init, d)

  -- The string of one function, while an option of the type `polled` is checked: the last test for a
  -- number is that the option that is checked is a button, not the function's.
  unfoldable pub function_string : ValueType → D → Thread → DevFunction → Option (CString × D)
  function_string polled d st function = do
    fdesc ← open_descriptor sane d st function.number
    (v, d') ← function_value d st function
    if is_number fdesc.type || is_button polled
        then some (assign (or_null function.env) (decimal v.num_value), d')
        else if is_string fdesc.type
        then some (assign (or_null function.env) (or_null v.str), d')
        else none

  -- The loop over the functions, with the entries left.
  unfoldable pub function_strings :
      ValueType → ℕ → List DevFunction → D → Thread → Option (List CString × D)
  function_strings polled zero fs d st = some ([], d)
  function_strings polled (suc k) [] d st = none
  function_strings polled (suc k) (f ∷ fs) d st = do
    (s, d') ← function_string polled d st f
    (ss, d'') ← function_strings polled k fs d' st
    some (s ∷ ss, d'')

-- PATH has a default.
unfoldable pub path_string : Process → CString
path_string p = elim (p.getenv (lit "PATH")) [
  | none ↦ assign (lit "PATH") (lit "/usr/sbin:/usr/bin:/sbin:/bin")
  | some path ↦ assign (lit "PATH") path
]

-- PWD, as it is set or else found, is left out if it is neither.
unfoldable pub pwd_from : Option CString → Option CString → List CString
pwd_from (some wd) cwd = assign (lit "PWD") wd ∷ []
pwd_from none (some wd) = assign (lit "PWD") wd ∷ []
pwd_from none none = []

abbrev pub pwd_strings : Process → List CString
pwd_strings p = pwd_from (p.getenv (lit "PWD")) p.getcwd

-- USER and HOME default to the password entry, which is asserted to be there.
unfoldable pub or_passwd :
    CString
    → (CString × CString → CString)
    → Option CString
    → Option (CString × CString)
    → Option CString
or_passwd name field (some value) passwd = some (assign name value)
or_passwd name field none (some pwd) = some (assign name (field pwd))
or_passwd name field none none = none

abbrev pub user_string : Process → Option CString
user_string p = or_passwd (lit "USER") (λ pwd. pwd.0) (p.getenv (lit "USER")) p.passwd

abbrev pub home_string : Process → Option CString
home_string p = or_passwd (lit "HOME") (λ pwd. pwd.1) (p.getenv (lit "HOME")) p.passwd

-- A variable whose name is configured.
unfoldable pub named_strings : Option CString → CString → List CString
named_strings none value = []
named_strings (some name) value = assign name value ∷ []

module _ {D : Type 0} (sane : Driver D) where
  -- The strings before the NULL entry, for a triggered action; the last assertion is that they
  -- fill the array.
  unfoldable pub environment : Process → ValueType → D → Thread → ℕ → Option (List CString × D)
  environment p polled d st triggered = do
    (fs, d') ← function_strings sane polled st.num_of_options_with_functions st.functions d st
    user ← user_string p
    home ← home_string p
    action ← get_elem? st.opts triggered
    let env =
        fs
        ++ (path_string p
            ∷ (pwd_strings p
                ++ (user
                    ∷ home
                    ∷ (named_strings p.device_env st.dev_name
                        ++ named_strings p.action_env (or_null action.action_name)))))
    if length env == st.num_of_options_with_functions + 6 then some (env, d') else none
