-- ===== src/Scanbuttond/UsbTests.antt =====
-- src/scanbuttond/interface/libusbi.c on small inputs.
use scanbd.Prelude.{
  ℕ, zero, suc, ◌+◌, ◌-◌, ◌≤◌, ◌≡◌, refl, none, some, List, [], ◌∷◌, lit, length, length-take, map,
  All, replicate, take, pos, arith,
}
use mathlib.Core.Option.{some-injective}
use scanbd.Prelude.{subst}
use scanbd.Scanbuttond.Libusbi.{
  RawDevice, LibusbDevice, libusb_rescan, search_from, search_endpoints, is_usable, attach_busses,
  attach_devices, attach_interface,
}
use scanbd.Scanbuttond.Libusbi.Calls.{Libusb, libusb_open, libusb_flush}
use scanbd.Scanbuttond.Libusbi.Attached.{
  newest_usable, concat_busses, IsAttached, libusb_rescan-IsAttached,
}
use scanbd.Scanbuttond.Libusbi.Flush.{BulkReadsAtMost, Drains, IsDry, libusb_flush-IsDry}
use scanbd.Scanbuttond.Libusbi.Handles.{CountsHandles, IsOpening, libusb_open-IsOpening}
use scanbd.Scanbuttond.Hp5590.{skip}

-- A LIDE 20 with a bulk endpoint in each direction, and a keyboard.
abbrev pub lide : RawDevice
lide = record {
  vendor = 1193;
  product = 8712;
  device_class = 255;
  interfaces =
      record {
        interface_class = 255;
        endpoints =
            record { address = 129; attributes = 3 }
            ∷ record { address = 130; attributes = 2 }
            ∷ record { address = 3; attributes = 2 }
            ∷ [];
      }
      ∷ [];
  dirname = lit "001";
  filename = lit "002";
}

abbrev pub keyboard : RawDevice
keyboard = record {
  vendor = 1133;
  product = 49155;
  device_class = 0;
  interfaces = record { interface_class = 3; endpoints = [] } ∷ [];
  dirname = lit "001";
  filename = lit "003";
}

abbrev pub busses : List (List RawDevice)
busses = (keyboard ∷ lide ∷ []) ∷ [] ∷ []

abbrev pub attached : LibusbDevice
attached = record {
  vendor_id = 1193;
  product_id = 8712;
  location = lit "001:002";
  device = lide;
  handle = none;
  interface = 0;
  out_endpoint = 3;
  in_endpoint = 130;
}

rescanned : libusb_rescan busses [] ≡ some (attached ∷ [])
unfolding attach_busses attach_devices attach_interface search_from is_usable search_endpoints
rescanned = refl

libusb_rescan-IsAttached_example :
    (devices : List LibusbDevice) × (libusb_rescan busses (attached ∷ []) ≡ some devices)
    × (map LibusbDevice.device devices ≡ newest_usable (concat_busses busses))
    × All IsAttached devices
libusb_rescan-IsAttached_example = libusb_rescan-IsAttached busses (attached ∷ [])

-- The handles that are open, and the bytes that wait to be read.
pub record Line : Type 0 where
  pub handles : ℕ
  pub bytes : List ℕ

abbrev pub lib : Libusb Line
lib = record {
  usb_find_devices = λ l. (0, l);
  usb_open = λ l device. (some 7, record l { handles = suc l.handles });
  usb_claim_interface = λ l h i. (pos 0, l);
  usb_release_interface = λ l h i. (pos 0, l);
  usb_close = λ l h. (pos 0, record l { handles = l.handles - 1 });
  usb_bulk_read = λ l h ep n. (some (take n l.bytes), record l { bytes = skip n l.bytes });
  usb_bulk_write = λ l h ep bytes. (pos (length bytes), l);
  usb_clear_halt = λ l h ep. l;
  usb_control_in = λ l h setup n. (some (take n l.bytes), record l { bytes = skip n l.bytes });
  usb_control_out = λ l h setup bytes. (pos (length bytes), l);
}

lib-CountsHandles : CountsHandles lib Line.handles
lib-CountsHandles = record {
  opens = λ d raw h e. refl;
  fails = λ d raw e. cc;
  claims = λ d h i. refl;
  releases = λ d h i. refl;
  closes = λ d h p. omega (arith, p);
}

pub length-take-le : (n : ℕ) (bytes got : List ℕ) → some (take n bytes) ≡ some got → length got ≤ n
length-take-le n bytes got e =
    subst (λ l. length l ≤ n) (some-injective _ _ e) (omega (arith, length-take n bytes))

pub lib-BulkReadsAtMost : BulkReadsAtMost lib
lib-BulkReadsAtMost d h ep n bytes e = length-take-le n d.bytes bytes e

take-skip-length :
    (n : ℕ) (bytes : List ℕ) → length (take n bytes) + length (skip n bytes) ≤ length bytes
take-skip-length zero bytes = omega arith
take-skip-length (suc n) [] = omega arith
take-skip-length (suc n) (b ∷ bytes) = omega (arith, take-skip-length n bytes)

lib-Drains : Drains lib (λ l. length l.bytes)
lib-Drains d h ep n bytes e =
    subst (λ l. length l + length (skip n d.bytes) ≤ length d.bytes) (some-injective _ _ e)
      (take-skip-length n d.bytes)

abbrev pub line : Line
line = record { handles = 1; bytes = replicate 20 7 }

libusb_flush-IsDry_example :
    (last d' : Line) × (libusb_flush lib 21 attached 7 (replicate 16 0) line ≡ some d')
    × ((lib.usb_bulk_read last 7 130 16).1 ≡ d')
    × IsDry (lib.usb_bulk_read last 7 130 16).0
libusb_flush-IsDry_example =
    libusb_flush-IsDry lib (λ l. length l.bytes) lib-BulkReadsAtMost lib-Drains 21 attached 7
      (replicate 16 0) line refl (omega arith)

libusb_open-IsOpening_example :
    IsOpening 1
      (libusb_open lib attached line).2.handles
      (libusb_open lib attached line).0
      (libusb_open lib attached line).1
libusb_open-IsOpening_example =
    libusb_open-IsOpening lib Line.handles lib-CountsHandles attached line
