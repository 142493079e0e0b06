-- ===== src/Scanbuttond/Meta.antt =====
-- The meta backend, src/scanbuttond/backends/meta.c, which loads the others and passes on their
-- scanners. `none` is a fault inside of a loaded backend.
pub mod Listed
pub mod Lifetime
pub mod Loading
use scanbd.Prelude.{
  ℕ, zero, suc, ◌==◌, ◌>>=◌, if◌then◌else◌, Bool, true, false, leb, Option, none, some, List, [],
  ◌∷◌, CString, lit, str_eq, ℤ, pos, negsuc,
}
use scanbd.Scanbuttond.Device.{Scanner, enodev}
use scanbd.Scanbuttond.Libusbi.Calls.{Users, libusb_init, libusb_exit}

-- backend_t: the functions of a loaded backend, over the state `S` of all that is loaded.
pub record Module (S : Type 0) : Type 0 where
  pub name : CString
  pub init : S → Option S
  pub rescan : S → Option S
  pub get_supported_devices : S → List Scanner
  pub open_scanner : Scanner → S → ℤ × Scanner × S
  pub close_scanner : Scanner → S → ℤ × Scanner × S
  pub get_button : Scanner → S → Option (ℤ × S)
  pub exit : S → Option S

-- scanner_t with its meta_info, `none` for NULL.
pub record MetaScanner (S : Type 0) : Type 0 where
  pub scanner : Scanner
  pub meta_info : Option (Module S)

-- meta_scanners and meta_backends, with the users of libusbi.c.
pub record Meta (S : Type 0) : Type 0 where
  pub meta_scanners : List (MetaScanner S)
  pub meta_backends : List (Module S)
  pub users : Users

abbrev pub backend_name : CString
backend_name = lit "Dynamic Module Loader"

module _ {S : Type 0} where
  abbrev pub meta_attach_scanner : Scanner → Module S → List (MetaScanner S) → List (MetaScanner S)
  meta_attach_scanner scanner backend scanners =
      record { scanner = scanner; meta_info = some backend } ∷ scanners

  -- The loop of meta_attach_scanners, once `count` scanners are attached.
  unfoldable pub attach_from :
      ℕ → List Scanner → Module S → List (MetaScanner S) → List (MetaScanner S)
  attach_from count [] backend scanners = scanners
  attach_from count (dev ∷ devices) backend scanners =
      let rest =
        attach_from (suc count) devices backend (meta_attach_scanner dev backend scanners) in
      if leb 16 count then scanners else rest

  abbrev pub meta_attach_scanners :
      List Scanner → Module S → List (MetaScanner S) → List (MetaScanner S)
  meta_attach_scanners devices backend scanners = attach_from 0 devices backend scanners

  abbrev pub meta_detach_scanners : List (MetaScanner S) → List (MetaScanner S)
  meta_detach_scanners scanners = []

  -- The result, and the backend put in front and initialised, unless it is a meta backend.
  unfoldable pub meta_attach_backend : Module S → Meta S → S → Option (ℤ × Meta S × S)
  meta_attach_backend backend m s =
      let attached = (do
        s' ← backend.init s
        some (pos 0, record m { meta_backends = backend ∷ m.meta_backends }, s')) in
      if str_eq backend.name backend_name then some (negsuc 0, m, s) else attached

  -- meta_detach_backends: the first backend until there is none; it is unloaded once it has ended.
  unfoldable pub detach_backends : List (Module S) → S → Option S
  detach_backends [] s = some s
  detach_backends (backend ∷ backends) s = do s' ← backend.exit s; detach_backends backends s'

  abbrev pub meta_lookup_backend : MetaScanner S → Option (Module S)
  meta_lookup_backend scanner = scanner.meta_info

-- meta_strip_newline: one newline at the end.
unfoldable pub meta_strip_newline : CString → CString
meta_strip_newline [] = []
meta_strip_newline (c ∷ []) = if c == 10 then [] else c ∷ []
meta_strip_newline (c ∷ d ∷ s) = c ∷ meta_strip_newline (d ∷ s)

-- strlen(s) == 0
abbrev pub is_empty : CString → Bool
is_empty [] = true
is_empty (c ∷ s) = false

-- scanbtnd_load_backend: the backend of a name, if its library can be loaded.
abbrev pub Loader : Type 0 → Type 0
Loader S = CString → Option (Module S)

module _ {S : Type 0} where
  -- After meta_attach_backend: the scanners of a backend that was not refused.
  unfoldable pub attach_loaded : Module S → Option (ℤ × Meta S × S) → Option (Meta S × S)
  attach_loaded backend none = none
  attach_loaded backend (some (negsuc n, m, s)) = some (m, s)
  attach_loaded backend (some (pos n, m, s)) =
      let attached =
        meta_attach_scanners (backend.get_supported_devices s) backend m.meta_scanners in
      some (record m { meta_scanners = attached }, s)

  unfoldable pub load_line : Option (Module S) → Meta S → S → Option (Meta S × S)
  load_line none m s = some (m, s)
  load_line (some backend) m s = attach_loaded backend (meta_attach_backend backend m s)

module _ {S : Type 0} (load : Loader S) where
  -- The loop over the lines of the configuration file.
  unfoldable pub read_lines : List CString → Meta S → S → Option (Meta S × S)
  read_lines [] m s = some (m, s)
  read_lines (line ∷ lines) m s =
      let lib = meta_strip_newline line in
      do
        (m', s') ← if is_empty lib then some (m, s) else load_line (load lib) m s
        read_lines lines m' s'

  unfoldable pub opened_config : Option (List CString) → Meta S → S → Option (ℤ × Meta S × S)
  opened_config none m s = some (negsuc 0, m, s)
  opened_config (some lines) m s = do (m', s') ← read_lines lines m s; some (pos 0, m', s')

  -- `config` is the lines of the configuration file as fgets gives them, `none` if it is not found.
  unfoldable pub scanbtnd_init : Option (List CString) → Users → S → Option (ℤ × Meta S × S)
  scanbtnd_init config users s =
      opened_config config
        (record { meta_scanners = []; meta_backends = []; users = libusb_init users }) s

module _ {S : Type 0} where
  -- The loop of scanbtnd_rescan over the backends.
  unfoldable pub rescan_backends :
      List (Module S) → List (MetaScanner S) → S → Option (List (MetaScanner S) × S)
  rescan_backends [] scanners s = some (scanners, s)
  rescan_backends (backend ∷ backends) scanners s = do
    s' ← backend.rescan s
    rescan_backends backends
        (meta_attach_scanners (backend.get_supported_devices s') backend scanners) s'

  unfoldable pub scanbtnd_rescan : Meta S → S → Option (Meta S × S)
  scanbtnd_rescan m s = do
    (scanners, s') ← rescan_backends m.meta_backends (meta_detach_scanners m.meta_scanners) s
    some (record m { meta_scanners = scanners }, s')

  -- A call of the scanner's backend, whose copy of the scanner is the one of the meta backend.
  unfoldable pub kept : Module S → ℤ × Scanner × S → ℤ × MetaScanner S × S
  kept backend (result, scanner, s) =
      (result, record { scanner = scanner; meta_info = some backend }, s)

  unfoldable pub open_by : Option (Module S) → MetaScanner S → S → ℤ × MetaScanner S × S
  open_by none scanner s = (negsuc 0, scanner, s)
  open_by (some backend) scanner s = kept backend (backend.open_scanner scanner.scanner s)

  -- `changed` is libusb_get_changed_device_count.
  unfoldable pub scanbtnd_open : (S → ℕ × S) → MetaScanner S → S → ℤ × MetaScanner S × S
  scanbtnd_open changed scanner s =
      let (count, s') = changed s in
      if count == 0 then open_by (meta_lookup_backend scanner) scanner s' else (enodev, scanner, s')

  unfoldable pub close_by : Option (Module S) → MetaScanner S → S → ℤ × MetaScanner S × S
  close_by none scanner s = (negsuc 0, scanner, s)
  close_by (some backend) scanner s = kept backend (backend.close_scanner scanner.scanner s)

  abbrev pub scanbtnd_close : MetaScanner S → S → ℤ × MetaScanner S × S
  scanbtnd_close scanner s = close_by (meta_lookup_backend scanner) scanner s

  unfoldable pub button_by : Option (Module S) → MetaScanner S → S → Option (ℤ × S)
  button_by none scanner s = some (pos 0, s)
  button_by (some backend) scanner s = backend.get_button scanner.scanner s

  abbrev pub scanbtnd_get_button : MetaScanner S → S → Option (ℤ × S)
  scanbtnd_get_button scanner s = button_by (meta_lookup_backend scanner) scanner s

  unfoldable pub scanbtnd_exit : Meta S → S → Option (Meta S × S)
  scanbtnd_exit m s = do
    s' ← detach_backends m.meta_backends s
    some (record { meta_scanners = []; meta_backends = []; users = libusb_exit m.users }, s')
