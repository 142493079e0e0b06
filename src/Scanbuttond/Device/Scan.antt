-- ===== src/Scanbuttond/Device/Scan.antt =====
-- What the list of scanners of a backend of src/scanbuttond/backends holds after a scan.
use scanbd.Prelude.{
  ℕ, suc, ◌+◌, ◌≡◌, ◌⊎◌, refl, ap, sym, ◌∙◌, inl, inr, Bool-cases, false, Option, none, some, List,
  [], ◌∷◌, ◌++◌, if◌then◌else◌, append_assoc, append-nil, map, All, length, arith, get_elem?,
  get_elem?-lt, get_elem?-inside,
}
use scanbd.Scanbuttond.Device.{
  UsbDevice, Supported, Scanner, Backend, is_row, match_from, match_libusb_scanner, new_scanner,
  attach_at, attach_libusb_scanner, scan_devices, scanbtnd_rescan,
}

-- The first row for a device.
abbrev pub first_row : List Supported → UsbDevice → Option Supported
first_row [] device = none
first_row (row ∷ rows) device =
    let rest = first_row rows device in if is_row device row then some row else rest

-- What the search of the table finds: no row, or the first one.
abbrev Found : ℕ → List Supported → UsbDevice → Option ℕ → Type 0
Found n rows device found =
    ((found ≡ none) × (first_row rows device ≡ none))
    ⊎ ((i : ℕ) × (row : Supported) × (found ≡ some (n + i))
        × (get_elem? rows i ≡ some row)
        × (first_row rows device ≡ some row))

match_from-Found :
    (n : ℕ) (rows : List Supported) (device : UsbDevice)
    → Found n rows device (match_from n rows device)
unfolding match_from
match_from-Found n [] device = inl (refl, refl)
match_from-Found n (row ∷ rows) device = elim (Bool-cases (is_row device row)) [
  | inl e ↦ inr (0, row, rw e (ap some (omega arith)), refl, rw e refl)
  | inr e ↦ next e (match_from-Found (suc n) rows device)
]
  where
    next :
        is_row device row ≡ false
        → Found (suc n) rows device (match_from (suc n) rows device)
        → Found n (row ∷ rows) device (match_from n (row ∷ rows) device)
    next e (inl (f, r)) = inl (rw e f, rw e r)
    next e (inr (i, row', f, g, r)) = inr (suc i, row', rw e (f ∙ ap some (omega arith)), g, rw e r)

-- A scanner as a scan makes it: closed, named by its location, with the number of buttons of the
-- first row of its device.
abbrev pub IsNew : Backend → Scanner → Type 0
IsNew b s =
    (row : Supported) × (first_row b.supported_usb_devices s.device ≡ some row)
    × (s.num_buttons ≡ row.num_buttons)
    × (s.is_open ≡ false)
    × (s.sane_device ≡ b.prefix ++ s.device.location)

-- The devices with a row, the last one first.
abbrev pub if_row : UsbDevice → Option Supported → List UsbDevice
if_row device none = []
if_row device (some row) = device ∷ []

abbrev pub own_device : Backend → UsbDevice → List UsbDevice
own_device b device = if_row device (first_row b.supported_usb_devices device)

abbrev pub newest_first : Backend → List UsbDevice → List UsbDevice
newest_first b [] = []
newest_first b (device ∷ devices) = newest_first b devices ++ own_device b device

module _ (b : Backend)
    (tables : length b.usb_device_descriptions ≡ length b.supported_usb_devices) where
  attach_row :
      (device : UsbDevice) (scanners : List Scanner) (i : ℕ) (row : Supported)
      → match_libusb_scanner b device ≡ some i
      → get_elem? b.supported_usb_devices i ≡ some row
      → first_row b.supported_usb_devices device ≡ some row
      → (s : Scanner) × (attach_libusb_scanner b device scanners ≡ some (s ∷ scanners))
        × (s.device ≡ device)
        × IsNew b s
  unfolding attach_at new_scanner
  attach_row device scanners i row m g f =
      let inside = get_elem?-inside b.supported_usb_devices i g in
      let ((vendor, product), e) =
        get_elem?-lt b.usb_device_descriptions i (omega (arith, tables, inside)) in
      (
        record {
          vendor = vendor;
          product = product;
          device = device;
          lastbutton = 0;
          sane_device = b.prefix ++ device.location;
          num_buttons = row.num_buttons;
          is_open = false;
        },
        ap (attach_at b device scanners) m ∙ rw (g, e) refl,
        refl,
        (row, f, refl, refl, refl),
      )

  attach_lem :
      (device : UsbDevice) (scanners : List Scanner)
      → All (IsNew b) scanners
      → (scanners' : List Scanner) × (attach_libusb_scanner b device scanners ≡ some scanners')
        × (map Scanner.device scanners' ≡ own_device b device ++ map Scanner.device scanners)
        × All (IsNew b) scanners'
  unfolding attach_at
  attach_lem device scanners h = elim (match_from-Found 0 b.supported_usb_devices device) [
    | inl (m, f) ↦ (
      scanners,
      ap (attach_at b device scanners) m,
      ap (λ o. if_row device o ++ map Scanner.device scanners) (sym f),
      h,
    )
    | inr (i, row, m, g, f) ↦
        let zero_i : 0 + i ≡ i = omega arith in
        let (s, e, same, new) = attach_row device scanners i row (m ∙ ap some zero_i) g f in
        (
          s ∷ scanners,
          e,
          ap (λ x. x ∷ map Scanner.device scanners) same
              ∙ ap (λ o. if_row device o ++ map Scanner.device scanners) (sym f),
          (new, h),
        )
  ]

  scan_lem :
      (devices : List UsbDevice) (scanners : List Scanner)
      → All (IsNew b) scanners
      → (scanners' : List Scanner) × (scan_devices b devices scanners ≡ some scanners')
        × (map Scanner.device scanners' ≡ newest_first b devices ++ map Scanner.device scanners)
        × All (IsNew b) scanners'
  unfolding scan_devices
  scan_lem [] scanners h = (scanners, refl, refl, h)
  scan_lem (device ∷ devices) scanners h =
      let (first, e, d, h') = attach_lem device scanners h in
      let (last, e', d', h'') = scan_lem devices first h' in
      (
        last,
        rw e e',
        d'
            ∙ (ap (λ x. newest_first b devices ++ x) d
                ∙ sym (
                    append_assoc (newest_first b devices) (own_device b device)
                      (map Scanner.device scanners))),
        h'',
      )

  -- A rescan meets no access outside the tables and leaves exactly the supported devices on the bus,
  -- the last one first, each as a closed scanner with the number of buttons of the first row for its
  -- device, whatever scanners there were before, if the two tables are equally long.
  pub scanbtnd_rescan-newest_first :
      (devices : List UsbDevice) (old : List Scanner)
      → (scanners : List Scanner) × (scanbtnd_rescan b devices old ≡ some scanners)
        × (map Scanner.device scanners ≡ newest_first b devices)
        × All (IsNew b) scanners
  scanbtnd_rescan-newest_first devices old =
      let (scanners, e, d, h) = scan_lem devices [] tt in
      (scanners, e, d ∙ append-nil (newest_first b devices), h)
