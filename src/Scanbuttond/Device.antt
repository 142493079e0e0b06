-- ===== src/Scanbuttond/Device.antt =====
-- The scanners of a backend of src/scanbuttond/backends, by the example of plustek.c: the other
-- backends over libusbi.c have the same text with their own tables.
pub mod Scan
use scanbd.Prelude.{
  ℕ, zero, suc, ◌>>=◌, ◌==◌, if◌then◌else◌, ◌&&◌, Bool, true, false, Option, none, some, List, [],
  ◌∷◌, ◌++◌, CString, get_elem?, ℤ, pos, negsuc,
}

-- libusb_device_t, as far as the backends read it.
pub record UsbDevice : Type 0 where
  pub vendor_id : ℕ
  pub product_id : ℕ
  pub location : CString

-- A row of supported_usb_devices, and one of usb_device_descriptions.
pub record Supported : Type 0 where
  pub vendor : ℕ
  pub product : ℕ
  pub num_buttons : ℕ

-- scanner_t, connected over libusb.
pub record Scanner : Type 0 where
  pub vendor : CString
  pub product : CString
  pub device : UsbDevice
  pub lastbutton : ℕ
  pub sane_device : CString
  pub num_buttons : ℕ
  pub is_open : Bool

abbrev pub set_open : Bool → Scanner → Scanner
set_open b s = record s { is_open = b }

-- The tables of a backend.
pub record Backend : Type 0 where
  pub prefix : CString
  pub supported_usb_devices : List Supported
  pub usb_device_descriptions : List (CString × CString)

abbrev pub is_row : UsbDevice → Supported → Bool
is_row device row = row.vendor == device.vendor_id && row.product == device.product_id

-- The search from the index `n` on; `none` is -1.
unfoldable pub match_from : ℕ → List Supported → UsbDevice → Option ℕ
match_from n [] device = none
match_from n (row ∷ rows) device =
    let rest = match_from (suc n) rows device in if is_row device row then some n else rest

abbrev pub match_libusb_scanner : Backend → UsbDevice → Option ℕ
match_libusb_scanner b device = match_from 0 b.supported_usb_devices device

-- A new scanner for the row `index`; `none` is an access outside the tables.
unfoldable pub new_scanner : Backend → UsbDevice → ℕ → Option Scanner
new_scanner b device index = do
  row ← get_elem? b.supported_usb_devices index
  (vendor, product) ← get_elem? b.usb_device_descriptions index
  some (record {
    vendor = vendor;
    product = product;
    device = device;
    lastbutton = 0;
    sane_device = b.prefix ++ device.location;
    num_buttons = row.num_buttons;
    is_open = false;
  })

unfoldable pub attach_at : Backend → UsbDevice → List Scanner → Option ℕ → Option (List Scanner)
attach_at b device scanners none = some scanners
attach_at b device scanners (some index) = do
  scanner ← new_scanner b device index
  some (scanner ∷ scanners)

-- An unsupported device is passed over; a new scanner is put in front.
abbrev pub attach_libusb_scanner : Backend → UsbDevice → List Scanner → Option (List Scanner)
attach_libusb_scanner b device scanners =
    attach_at b device scanners (match_libusb_scanner b device)

unfoldable pub scan_devices : Backend → List UsbDevice → List Scanner → Option (List Scanner)
scan_devices b [] scanners = some scanners
scan_devices b (device ∷ devices) scanners = do
  scanners' ← attach_libusb_scanner b device scanners
  scan_devices b devices scanners'

abbrev pub detach_scanners : List Scanner → List Scanner
detach_scanners scanners = []

-- `devices` is what libusb_get_devices lists after libusb_rescan.
abbrev pub scanbtnd_rescan : Backend → List UsbDevice → List Scanner → Option (List Scanner)
scanbtnd_rescan b devices scanners = scan_devices b devices (detach_scanners scanners)

-- The calls of libusbi.c on the bus, whose state is a `D`.
pub record Bus (D : Type 0) : Type 0 where
  pub changed_device_count : D → ℕ
  pub libusb_open : D → UsbDevice → ℤ × D
  pub libusb_close : D → UsbDevice → ℤ × D

-- Negative error numbers.
abbrev pub einval : ℤ
einval = negsuc 21

abbrev pub enodev : ℤ
enodev = negsuc 18

abbrev pub is_zero : ℤ → Bool
is_zero (pos zero) = true
is_zero _ = false

module _ {D : Type 0} (bus : Bus D) where
  unfoldable pub opened : Scanner → ℤ × D → ℤ × Scanner × D
  opened s (result, d) = (result, (if is_zero result then record s { is_open = true } else s), d)

  unfoldable pub scanbtnd_open : Scanner → D → ℤ × Scanner × D
  scanbtnd_open s d =
      if s.is_open
      then (einval, s, d)
      else if bus.changed_device_count d == 0
      then opened s (bus.libusb_open d s.device)
      else (enodev, s, d)

  unfoldable pub closed : Scanner → ℤ × D → ℤ × Scanner × D
  closed s (result, d) = (result, (if is_zero result then record s { is_open = false } else s), d)

  unfoldable pub scanbtnd_close : Scanner → D → ℤ × Scanner × D
  scanbtnd_close s d = if s.is_open then closed s (bus.libusb_close d s.device) else (einval, s, d)
