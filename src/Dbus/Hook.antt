-- ===== src/Dbus/Hook.antt =====
-- The script that hook_device_ex of src/scanbd/dbus.c runs when a device comes or goes. `none` is a
-- failed assertion or a path without its end.
use scanbd.Prelude.{
  ℕ, ◌>>=◌, ◌==◌, ==_iff, ◌≡◌, ◌≤◌, ◌⊎◌, refl, sym, ap, ◌∙◌, inl, inr, if◌then◌else◌, Bool, true,
  false, ◌&&◌, ◌||◌, not, Bool-cases, Option, Option-cases, none, some, List, [], ◌∷◌, ◌++◌, length,
  length-append, CString, lit, str_eq, arith,
}
use scanbd.Config.ScriptPath.{
  make_script_path_abs, null_path, is_absolute, is_unterminated, IsScriptPath,
  make_script_path_abs-is_final,
}
use scanbd.Sane.Match.Options.Entry.{is_set}
use scanbd.Sane.Poll.Environment.{
  Process, path_string, pwd_strings, user_string, home_string, named_strings,
}
use scanbd.Sane.Poll.Environment.Parts.{has_all, fills, pwd_count, named_count}
use scanbd.Sane.Poll.Environment.Complete.{has_user, has_home, no_user, no_home, both}

-- The strings, one after the other.
abbrev hook_strings : Process → CString → CString → CString → CString → List CString
hook_strings p user home action_name dev_name =
    path_string p
    ∷ (pwd_strings p
        ++ (user
            ∷ home
            ∷ (named_strings p.device_env dev_name ++ named_strings p.action_env action_name)))

-- The strings before the NULL entry; the last assertion is that they are 6.
unfoldable pub hook_environment : Process → CString → CString → Option (List CString)
hook_environment p action_name dev_name = do
  user ← user_string p
  home ← home_string p
  let env = hook_strings p user home action_name dev_name
  if length env == 6 then some env else none

-- The script of an absolute path and its environment, unless it is the null string.
unfoldable pub run_script : CString → List CString → Option (CString × List CString)
run_script path env = if str_eq path null_path then none else some (path, env)

-- `script` is the configured one; the directories are those of make_script_path_abs.
unfoldable pub hook_device_ex :
    Process
    → CString
    → Option CString
    → Option CString
    → CString
    → CString
    → Option (Option (CString × List CString))
hook_device_ex p cfg_dir scriptdir none action_name dev_name = some none
hook_device_ex p cfg_dir scriptdir (some []) action_name dev_name = some none
hook_device_ex p cfg_dir scriptdir (some (c ∷ script)) action_name dev_name = do
  env ← hook_environment p action_name dev_name
  path ← make_script_path_abs cfg_dir scriptdir (c ∷ script)
  some (run_script path env)

abbrev pub hook_device_insert :
    Process
    → CString
    → Option CString
    → Option CString
    → CString
    → Option (Option (CString × List CString))
hook_device_insert p cfg_dir scriptdir script dev_name =
    hook_device_ex p cfg_dir scriptdir script (lit "insert") dev_name

abbrev pub hook_device_remove :
    Process
    → CString
    → Option CString
    → Option CString
    → CString
    → Option (Option (CString × List CString))
hook_device_remove p cfg_dir scriptdir script dev_name =
    hook_device_ex p cfg_dir scriptdir script (lit "remove") dev_name

-- The environment is complete, or a variable of it is missing.
abbrev IsWhole : Process → Option (List CString) → Type 0
IsWhole p none = has_all p ≡ false
IsWhole p (some env) = (has_all p ≡ true) × (length env ≡ 6)

hook_environment-length :
    (p : Process) (user home action_name dev_name : CString)
    → (length (hook_strings p user home action_name dev_name) == 6) ≡ (
        (is_set (p.getenv (lit "PWD")) || is_set p.getcwd)
        && (is_set p.device_env && is_set p.action_env))
hook_environment-length p user home action_name dev_name =
    let device = named_strings p.device_env dev_name in
    let script = named_strings p.action_env action_name in
    let rest = user ∷ home ∷ (device ++ script) in
    fills (length (path_string p ∷ (pwd_strings p ++ rest))) 0
      (is_set (p.getenv (lit "PWD")) || is_set p.getcwd) (is_set p.device_env) (is_set p.action_env)
      (omega (
        arith,
        length-append (pwd_strings p) rest,
        length-append device script,
        pwd_count (p.getenv (lit "PWD")) p.getcwd,
        named_count p.device_env dev_name,
        named_count p.action_env action_name,
      ))

-- What the guard leaves is whole, or something is missing.
guard-IsWhole :
    (p : Process) (env : List CString) (b : Bool)
    → (length env == 6) ≡ b
    → b ≡ has_all p
    → IsWhole p (if length env == 6 then some env else none)
guard-IsWhole p env true e h = rw e (sym h, (==_iff (length env) 6).0 e)
guard-IsWhole p env false e h = rw e (sym h)

hook_environment-IsWhole :
    (p : Process) (action_name dev_name : CString)
    → IsWhole p (hook_environment p action_name dev_name)
unfolding hook_environment
hook_environment-IsWhole p action_name dev_name =
    let h = is_set (p.getenv (lit "HOME")) || is_set p.passwd in
    let c = is_set p.device_env && is_set p.action_env in
    elim (Option-cases (user_string p)) [
      | inl ue ↦ rw ue (sym (no_user _ _ h c (sym (has_user p) ∙ ap is_set ue)))
      | inr (user, ue) ↦ elim (Option-cases (home_string p)) [
        | inl he ↦ rw (ue, he) (sym (no_home _ _ _ _ (sym (has_home p) ∙ ap is_set he)))
        | inr (home, he) ↦
            rw (ue, he)
              (guard-IsWhole p (hook_strings p user home action_name dev_name) _
                (hook_environment-length p user home action_name dev_name)
                (both _ _ _ _ (sym (has_user p) ∙ ap is_set ue) (sym (has_home p) ∙ ap is_set he)))
      ]
    ]

-- The configured script, with the empty string if there is none.
abbrev pub configured : Option CString → CString
configured none = []
configured (some script) = script

-- What the hook comes to: no script, a fault, the null string, or a script with its path and its
-- environment.
abbrev pub IsHooked :
    Process → CString → Option CString → CString → Option (Option (CString × List CString)) → Type 0
IsHooked p cfg_dir scriptdir script result =
    ((script ≡ []) × (result ≡ some none))
    ⊎ ((str_eq script [] ≡ false)
        × ((has_all p && not (is_unterminated script)) ≡ false)
        × (result ≡ none))
    ⊎ ((has_all p ≡ true) × (str_eq script null_path ≡ true) × (result ≡ some none))
    ⊎ ((str_eq script [] ≡ false)
        × (has_all p ≡ true)
        × (is_unterminated script ≡ false)
        × (str_eq script null_path ≡ false)
        × (path : CString) × (env : List CString) × (result ≡ some (some (path, env)))
        × (make_script_path_abs cfg_dir scriptdir script ≡ some path)
        × (is_absolute path ≡ true)
        × (length path ≤ 4095)
        × (length env ≡ 6))

-- The null string is not run, and anything else is.
run_script-null :
    (path : CString) (env : List CString)
    → str_eq path null_path ≡ true
    → run_script path env ≡ none
unfolding run_script
run_script-null path env h = rw h refl

run_script-some :
    (path : CString) (env : List CString)
    → str_eq path null_path ≡ false
    → run_script path env ≡ some (path, env)
unfolding run_script
run_script-some path env h = rw h refl

-- The hook for a script that is not empty.
hooked :
    (p : Process) (cfg_dir : CString) (scriptdir : Option CString) (c : ℕ)
    (script action dev : CString)
    → (env : Option (List CString)) → hook_environment p action dev ≡ env
    → IsWhole p env
    → IsScriptPath cfg_dir scriptdir
        (c ∷ script)
        (make_script_path_abs cfg_dir scriptdir (c ∷ script))
    → IsHooked p cfg_dir scriptdir
        (c ∷ script)
        (hook_device_ex p cfg_dir scriptdir (some (c ∷ script)) action dev)
unfolding hook_device_ex
hooked p cfg_dir scriptdir c script action dev none he missing path =
    inr (inl (refl, rw missing refl, rw he refl))
hooked p cfg_dir scriptdir c script action dev (some env) he (all, six) (inr (pe, long)) =
    inr (inl (refl, rw (all, long) refl, rw (he, pe) refl))
hooked p cfg_dir scriptdir c script action dev (some env) he (all, six)
      (inl (path, pe, ends, final, same, fits, _)) =
    elim (Bool-cases (str_eq (c ∷ script) null_path)) [
      | inl e ↦
          inr (inr (inl (all, e, rw (he, pe) (ap some (run_script-null path env (same ∙ e))))))
      | inr e ↦ inr (
          inr (
            inr (
              refl,
              all,
              ends,
              e,
              path,
              env,
              rw (he, pe) (ap some (run_script-some path env (same ∙ e))),
              pe,
              left_one (is_absolute path) (str_eq path null_path) final (same ∙ e),
              fits,
              six,
            )))
    ]
  where
    left_one : (a b : Bool) → (a || b) ≡ true → b ≡ false → a ≡ true
    left_one a b q q' = ground arith

-- For a directory of the configuration that is absolute, the hook for a device does nothing if no
-- script is configured. Otherwise it faults, by its assertions or by a path without an end, exactly
-- if one of the variables of the environment is missing (the working directory, USER, HOME, or a
-- configured name) or the script is an absolute path of 4096 bytes or more; and if it does not, it
-- runs nothing for the null string, and else it runs the script by an absolute path of at most 4095
-- bytes, that of make_script_path_abs, with six variables.
pub hook_device_ex-IsHooked :
    (p : Process) (cfg_dir : CString) (scriptdir script : Option CString) (action dev : CString)
    → is_absolute cfg_dir ≡ true
    → IsHooked p cfg_dir scriptdir
        (configured script)
        (hook_device_ex p cfg_dir scriptdir script action dev)
unfolding hook_device_ex
hook_device_ex-IsHooked p cfg_dir scriptdir none action dev h = inl (refl, refl)
hook_device_ex-IsHooked p cfg_dir scriptdir (some []) action dev h = inl (refl, refl)
hook_device_ex-IsHooked p cfg_dir scriptdir (some (c ∷ script)) action dev h =
    hooked p cfg_dir scriptdir c script action dev (hook_environment p action dev) refl
      (hook_environment-IsWhole p action dev)
      (make_script_path_abs-is_final cfg_dir scriptdir (c ∷ script) h)
