-- ===== src/Config/ScriptPath.antt =====
-- make_script_path_abs of src/scanbd/config.c.
use scanbd.Prelude.{
  ℕ, suc, ◌≤◌, ◌≡◌, refl, sym, ap, ◌∙◌, inl, inr, ◌==◌, ==_iff, subst, ◌&&◌, if◌then◌else◌, Bool,
  true, false, ◌||◌, Option, none, some, [], ◌∷◌, ◌++◌, CString, lit, str_eq, take, length,
  length-take, Bool-cases, arith, ltb, not, ◌⊎◌,
}

-- The first byte is a slash.
abbrev pub is_absolute : CString → Bool
is_absolute [] = false
is_absolute (c ∷ s) = c == 47

abbrev pub null_path : CString
null_path = lit "(null)"

-- strncpy with PATH_MAX (4096) into a buffer of one byte more: a string of that many bytes or more is
-- not terminated, as nothing writes the last byte. `none` is a buffer that holds no string.
unfoldable pub strncpy_path : CString → Option CString
strncpy_path s = if ltb (length s) 4096 then some s else none

-- snprintf with PATH_MAX, which keeps a byte for the NUL.
abbrev pub snprintf_path : CString → CString
snprintf_path s = take 4095 s

-- `cfg_dir` is SCANBD_CFG_DIR, set when the program is built; `scriptdir` the configured directory.
unfoldable pub relative_path : CString → Option CString → CString → CString
relative_path cfg_dir none script = snprintf_path (cfg_dir ++ (lit "/" ++ script))
relative_path cfg_dir (some []) script = snprintf_path (cfg_dir ++ (lit "/" ++ script))
relative_path cfg_dir (some (c ∷ dir)) script =
    if c == 47
    then snprintf_path ((c ∷ dir) ++ (lit "/" ++ script))
    else snprintf_path (cfg_dir ++ (lit "/" ++ ((c ∷ dir) ++ (lit "/" ++ script))))

unfoldable pub make_script_path_abs : CString → Option CString → CString → Option CString
make_script_path_abs cfg_dir scriptdir script =
    if is_absolute script || str_eq script null_path
    then strncpy_path script
    else some (relative_path cfg_dir scriptdir script)

-- Which paths stand for themselves.
abbrev pub is_final : CString → Bool
is_final s = is_absolute s || str_eq s null_path

absolute_append :
    (s t : CString) (n : ℕ) → is_absolute s ≡ true → is_absolute (take (suc n) (s ++ t)) ≡ true
absolute_append [] t n h = cc
absolute_append (c ∷ s) t n h = h

or_left : (a b : Bool) → a ≡ true → (a || b) ≡ true
or_left a b h = ground arith

relative-is_absolute :
    (cfg_dir : CString) (scriptdir : Option CString) (script : CString)
    → is_absolute cfg_dir ≡ true
    → is_absolute (relative_path cfg_dir scriptdir script) ≡ true
unfolding relative_path
relative-is_absolute cfg_dir none script h = absolute_append cfg_dir _ 4094 h
relative-is_absolute cfg_dir (some []) script h = absolute_append cfg_dir _ 4094 h
relative-is_absolute cfg_dir (some (c ∷ dir)) script h = elim (Bool-cases (c == 47)) [
  | inl e ↦ rw e e
  | inr e ↦ rw e (absolute_append cfg_dir _ 4094 h)
]

str_eq_sound : (s t : CString) → str_eq s t ≡ true → s ≡ t
str_eq_sound [] [] h = refl
str_eq_sound [] (d ∷ t) h = cc
str_eq_sound (c ∷ s) [] h = cc
str_eq_sound (c ∷ s) (d ∷ t) h =
    let (same, rest) = and_true (c == d) (str_eq s t) h in
    ap (λ m. m ∷ s) ((==_iff c d).0 same) ∙ ap (◌∷◌ d) (str_eq_sound s t rest)
  where
    and_true : (a b : Bool) → (a && b) ≡ true → (a ≡ true) × (b ≡ true)
    and_true a b q = ground arith

snprintf_path-length : (s : CString) → length (snprintf_path s) ≤ 4095
snprintf_path-length s = omega (arith, length-take 4095 s)

relative-length :
    (cfg_dir : CString) (scriptdir : Option CString) (script : CString)
    → length (relative_path cfg_dir scriptdir script) ≤ 4095
unfolding relative_path
relative-length cfg_dir none script = snprintf_path-length (cfg_dir ++ (lit "/" ++ script))
relative-length cfg_dir (some []) script = snprintf_path-length (cfg_dir ++ (lit "/" ++ script))
relative-length cfg_dir (some (c ∷ dir)) script = elim (Bool-cases (c == 47)) [
  | inl e ↦ rw e (snprintf_path-length ((c ∷ dir) ++ (lit "/" ++ script)))
  | inr e ↦ rw e (snprintf_path-length (cfg_dir ++ (lit "/" ++ ((c ∷ dir) ++ (lit "/" ++ script)))))
]

-- An absolute path that strncpy does not terminate.
abbrev pub is_unterminated : CString → Bool
is_unterminated s = is_absolute s && not (ltb (length s) 4096)

final_run :
    (cfg_dir : CString) (scriptdir : Option CString) (script : CString)
    → is_final script ≡ true
    → make_script_path_abs cfg_dir scriptdir script ≡ strncpy_path script
unfolding make_script_path_abs
final_run cfg_dir scriptdir script h = rw h refl

relative_run :
    (cfg_dir : CString) (scriptdir : Option CString) (script : CString)
    → is_final script ≡ false
    → make_script_path_abs cfg_dir scriptdir script ≡ some (relative_path cfg_dir scriptdir script)
unfolding make_script_path_abs
relative_run cfg_dir scriptdir script h = rw h refl

copied_short : (s : CString) → ltb (length s) 4096 ≡ true → strncpy_path s ≡ some s
unfolding strncpy_path
copied_short s h = rw h refl

copied_long : (s : CString) → ltb (length s) 4096 ≡ false → strncpy_path s ≡ none
unfolding strncpy_path
copied_long s h = rw h refl

absolute_ne_null : (s : CString) → is_absolute s ≡ true → str_eq s null_path ≡ false
absolute_ne_null [] h = refl
absolute_ne_null (c ∷ s) h = rw ((==_iff c 47).0 h) refl

-- A long path is not the null string.
long_ne_null : (s : CString) → ltb (length s) 4096 ≡ false → str_eq s null_path ≡ false
long_ne_null s h = elim (Bool-cases (str_eq s null_path)) [
  | inr e ↦ e
  | inl e ↦
      absurd
        (true_ne_false (subst (λ t. ltb (length t) 4096 ≡ false) (str_eq_sound s null_path e) h))
]
  where
    true_ne_false : true ≡ false → ⊥
    true_ne_false q = cc

-- What is made of a script: a path that is absolute or the null string, which is the null string only
-- for that, fits with its NUL into PATH_MAX bytes, and is left alone when it is put through once
-- more; or none, for an absolute path that is too long.
abbrev pub IsScriptPath : CString → Option CString → CString → Option CString → Type 0
IsScriptPath cfg_dir scriptdir script result =
    ((path : CString) × (result ≡ some path)
      × (is_unterminated script ≡ false)
      × (is_final path ≡ true)
      × (str_eq path null_path ≡ str_eq script null_path)
      × (length path ≤ 4095)
      × (make_script_path_abs cfg_dir scriptdir path ≡ some path))
    ⊎ ((result ≡ none) × (is_unterminated script ≡ true))

-- For a directory of the configuration that is absolute, make_script_path_abs makes a path that is
-- absolute or stands for no script, the latter only for a script that does, that has at most 4095
-- bytes and is left alone when it is put through once more; only for a script that is an absolute
-- path of 4096 bytes or more, and always for such a one, its buffer is left without the end of a
-- string.
pub make_script_path_abs-is_final :
    (cfg_dir : CString) (scriptdir : Option CString) (script : CString)
    → is_absolute cfg_dir ≡ true
    → IsScriptPath cfg_dir scriptdir script (make_script_path_abs cfg_dir scriptdir script)
make_script_path_abs-is_final cfg_dir scriptdir script h = elim (Bool-cases (is_final script)) [
  | inr e ↦
      let path = relative_path cfg_dir scriptdir script in
      let absolute = relative-is_absolute cfg_dir scriptdir script h in
      let fits = relative-length cfg_dir scriptdir script in
      let final : is_final path ≡ true =
        or_left (is_absolute path) (str_eq path null_path) absolute in
      let none_here = neither (is_absolute script) (str_eq script null_path) e in
      inl (
        path,
        relative_run cfg_dir scriptdir script e,
        rw none_here.0 refl,
        final,
        absolute_ne_null path absolute ∙ sym none_here.1,
        fits,
        final_run cfg_dir scriptdir path final ∙ copied_short path (short path fits),
      )
  | inl e ↦ elim (Bool-cases (ltb (length script) 4096)) [
    | inl fits ↦
        let run = final_run cfg_dir scriptdir script e ∙ copied_short script fits in
        inl (
          script,
          run,
          terminated (is_absolute script) (ltb (length script) 4096) fits,
          e,
          refl,
          below script fits,
          run,
        )
    | inr long ↦ inr (
      final_run cfg_dir scriptdir script e ∙ copied_long script long,
      left_only (is_absolute script) (str_eq script null_path) (ltb (length script) 4096) e
          (long_ne_null script long) long,
    )
  ]
]
  where
    neither : (a b : Bool) → (a || b) ≡ false → (a ≡ false) × (b ≡ false)
    neither a b q = ground arith

    terminated : (a b : Bool) → b ≡ true → (a && not b) ≡ false
    terminated a b q = ground arith

    left_only : (a b c : Bool) → (a || b) ≡ true → b ≡ false → c ≡ false → (a && not c) ≡ true
    left_only a b c q q' q'' = ground arith

    short : (s : CString) → length s ≤ 4095 → ltb (length s) 4096 ≡ true
    short s q = ground (arith, q)

    below : (s : CString) → ltb (length s) 4096 ≡ true → length s ≤ 4095
    below s q = ground (arith, q)
