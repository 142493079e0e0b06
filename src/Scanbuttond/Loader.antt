-- ===== src/Scanbuttond/Loader.antt =====
-- src/scanbd/scanbuttond_loader.c: the libraries of the backends, by their handles of dlopen.
mod Tests
use scanbd.Prelude.{
  ℕ, zero, suc, ◌+◌, ◌-◌, ◌≤◌, ◌<◌, ◌≡◌, ◌⊎◌, refl, sym, ap, ◌∙◌, inl, inr, ◌&&◌, ◌==◌, not,
  if◌then◌else◌, Bool, true, false, Bool-cases, Option, none, some, List, [], ◌∷◌, ◌++◌, length,
  length-append, length-take, take, CString, lit, ℤ, arith,
}
use scanbd.Scanbuttond.Device.{is_zero}

-- dlopen, dlsym and dlclose.
pub record Libraries (D : Type 0) : Type 0 where
  pub dlopen : CString → D → Option ℕ × D
  pub dlsym : ℕ → CString → D → Bool
  pub dlclose : ℕ → D → D

-- strncpy, which ends the text if it is shorter than `n`, into a buffer of `n` + 1 bytes, and strncat with the room that is left of it.
abbrev pub strncpy : ℕ → CString → CString
strncpy n source = take n source

abbrev pub strncat : ℕ → CString → CString → CString
strncat n dest source = dest ++ take (n - length dest) source

strncat_fits :
    (n : ℕ) (dest source : CString) → length dest ≤ n → length (strncat n dest source) ≤ n
strncat_fits n dest source h = omega (
  arith,
  h,
  length-append dest (take (n - length dest) source),
  length-take (n - length dest) source,
)

unfoldable pub dll_path : CString → CString → CString
dll_path lib_dir filename =
    strncat 4096 (strncat 4096 (strncat 4096 (strncpy 4096 lib_dir) (lit "/")) filename) (lit ".so")

dll_path_fits : (lib_dir filename : CString) → length (dll_path lib_dir filename) ≤ 4096
unfolding dll_path
dll_path_fits lib_dir filename =
    let dir = strncpy 4096 lib_dir in
    let slash = strncat 4096 dir (lit "/") in
    strncat_fits 4096 (strncat 4096 slash filename) (lit ".so") (
      strncat_fits 4096 slash filename
        (strncat_fits 4096 dir (lit "/") (omega (arith, length-take 4096 lib_dir))))

abbrev pub backend_symbols : List CString
backend_symbols =
    lit "scanbtnd_get_backend_name"
    ∷ lit "scanbtnd_init"
    ∷ lit "scanbtnd_rescan"
    ∷ lit "scanbtnd_get_supported_devices"
    ∷ lit "scanbtnd_open"
    ∷ lit "scanbtnd_close"
    ∷ lit "scanbtnd_get_button"
    ∷ lit "scanbtnd_get_sane_device_descriptor"
    ∷ lit "scanbtnd_exit"
    ∷ []

-- The backend that is loaded, by its handle, and lib_dir.
pub record LoaderState (D : Type 0) : Type 0 where
  pub lib_dir : CString
  pub loaded_backend : Option ℕ
  pub libraries : D

module _ {D : Type 0} (dl : Libraries D) where
  -- The search for each symbol, up to the first that is missing.
  unfoldable pub has_symbols : ℕ → List CString → D → Bool
  has_symbols handle [] d = true
  has_symbols handle (symbol ∷ symbols) d =
      let rest = has_symbols handle symbols d in if dl.dlsym handle symbol d then rest else false

  unfoldable pub with_symbols : Option ℕ × D → Option ℕ × D
  with_symbols (none, d) = (none, d)
  with_symbols (some handle, d) =
      if has_symbols handle backend_symbols d then (some handle, d) else (none, dl.dlclose handle d)

  abbrev pub scanbtnd_load_backend : CString → CString → D → Option ℕ × D
  scanbtnd_load_backend lib_dir filename d = with_symbols (dl.dlopen (dll_path lib_dir filename) d)

  unfoldable pub scanbtnd_unload_backend : Option ℕ → D → D
  scanbtnd_unload_backend none d = d
  scanbtnd_unload_backend (some handle) d = dl.dlclose handle d

  -- The configured directory, below that of the configuration if it is relative.
  unfoldable pub backends_dir : CString → Option CString → CString → CString
  backends_dir cfg_dir none lib_dir = lib_dir
  backends_dir cfg_dir (some []) lib_dir = strncpy 4096 (take 4095 (cfg_dir ++ lit "/"))
  backends_dir cfg_dir (some (c ∷ dir)) lib_dir =
      strncpy 4096 (if c == 47 then c ∷ dir else take 4095 (cfg_dir ++ (lit "/" ++ (c ∷ dir))))

  -- What scanbtnd_init does once the library is loaded; `init` is the function in the library.
  unfoldable pub meta_started : (ℕ → D → ℤ × D) → CString → Option ℕ × D → Bool × LoaderState D
  meta_started init lib_dir (none, d) =
      (false, record { lib_dir = lib_dir; loaded_backend = none; libraries = d })
  meta_started init lib_dir (some handle, d) =
      let (result, d') = init handle d in
      (is_zero result, record { lib_dir = lib_dir; loaded_backend = some handle; libraries = d' })

  abbrev pub loader_init :
      (ℕ → D → ℤ × D) → CString → Option CString → LoaderState D → Bool × LoaderState D
  loader_init init cfg_dir configured s =
      let lib_dir = backends_dir cfg_dir configured s.lib_dir in
      meta_started init lib_dir (scanbtnd_load_backend lib_dir (lit "meta") s.libraries)

  -- dlopen as it is documented: it opens one handle or none, and dlclose closes one.
  pub record CountsHandles (open_handles : D → ℕ) : Type 0 where
    pub opened_or_not :
        (path : CString) (d : D)
        → ((h : ℕ) × ((dl.dlopen path d).0 ≡ some h)
            × (open_handles (dl.dlopen path d).1 ≡ suc (open_handles d)))
          ⊎ (((dl.dlopen path d).0 ≡ none) × (open_handles (dl.dlopen path d).1 ≡ open_handles d))
    pub one_closed : (handle : ℕ) (d : D) → open_handles (dl.dlclose handle d) ≡ open_handles d - 1

  -- A library is loaded with all its symbols and one more open handle, or not, with as many as
  -- before.
  abbrev pub IsLoaded : (D → ℕ) → D → Option ℕ × D → Type 0
  IsLoaded open_handles d (result, d') =
      ((h : ℕ) × (result ≡ some h)
        × (has_symbols h backend_symbols d' ≡ true)
        × (open_handles d' ≡ suc (open_handles d)))
      ⊎ ((result ≡ none) × (open_handles d' ≡ open_handles d))

  with_symbols-IsLoaded :
      (open_handles : D → ℕ) (d : D) (r : Option ℕ × D)
      → CountsHandles open_handles
      → (((h : ℕ) × (r.0 ≡ some h) × (open_handles r.1 ≡ suc (open_handles d)))
          ⊎ ((r.0 ≡ none) × (open_handles r.1 ≡ open_handles d)))
      → IsLoaded open_handles d (with_symbols r)
  unfolding with_symbols
  with_symbols-IsLoaded open_handles d (none, d') counts (inl (h, e, more)) = cc
  with_symbols-IsLoaded open_handles d (none, d') counts (inr (e, same)) = inr (refl, same)
  with_symbols-IsLoaded open_handles d (some handle, d') counts (inr (e, same)) = cc
  with_symbols-IsLoaded open_handles d (some handle, d') counts (inl (h, e, more)) =
      elim (Bool-cases (has_symbols handle backend_symbols d')) [
        | inl found ↦ rw found (inl (handle, refl, found, more))
        | inr missing ↦ rw missing (inr (refl, omega (arith, counts.one_closed handle d', more)))
      ]

  -- Loading a backend opens a path that fits its buffer, and it gives a library with all nine
  -- functions of a backend and one more open handle, which unloading closes, or NULL with as many
  -- open handles as before, also when a function is missing. dlopen opens one handle or none, dlclose
  -- closes one, and the directory has less than 4096 characters.
  pub scanbtnd_load_backend-IsLoaded :
      (open_handles : D → ℕ) (lib_dir filename : CString) (d : D)
      → CountsHandles open_handles
      → length lib_dir < 4096
      → (length (dll_path lib_dir filename) ≤ 4096)
        × IsLoaded open_handles d (scanbtnd_load_backend lib_dir filename d)
        × (open_handles (
              scanbtnd_unload_backend
                (scanbtnd_load_backend lib_dir filename d).0
                (scanbtnd_load_backend lib_dir filename d).1)
            ≡ open_handles d)
  unfolding scanbtnd_unload_backend
  scanbtnd_load_backend-IsLoaded open_handles lib_dir filename d counts short =
      let loaded =
        with_symbols-IsLoaded open_handles d (dl.dlopen (dll_path lib_dir filename) d) counts
          (counts.opened_or_not (dll_path lib_dir filename) d) in
      (
        dll_path_fits lib_dir filename,
        loaded,
        (elim loaded [
          | inl (h, e, _, more) ↦
              ap
                (λ o.
                  open_handles
                    (scanbtnd_unload_backend o (scanbtnd_load_backend lib_dir filename d).1))
                e
              ∙ omega
                  (arith, more, counts.one_closed h (scanbtnd_load_backend lib_dir filename d).1)
          | inr (e, same) ↦
              ap
                (λ o.
                  open_handles
                    (scanbtnd_unload_backend o (scanbtnd_load_backend lib_dir filename d).1))
                e
              ∙ same
        ]),
      )
