-- ===== src/Scanbuttond/Libusbi/Interface.antt =====
-- What the backends use of src/scanbuttond/interface/libusbi.c, on a device whose handle is open.
use scanbd.Prelude.{ℕ, ◌≤◌, ◌≡◌, refl, Option, none, some, List, length, arith}
use scanbd.Scanbuttond.Exchange.{Usb, ReadsAtMost}
use scanbd.Scanbuttond.Hp5590.{Urbs}
use scanbd.Scanbuttond.Hp5590.Ensures.{UrbsAtMost}
use scanbd.Scanbuttond.Libusbi.{LibusbDevice}
use scanbd.Scanbuttond.Libusbi.Calls.{
  Setup, Libusb, read_result, libusb_read, libusb_write, control_in_result, control_out_result,
}
use scanbd.Scanbuttond.Libusbi.Flush.{BulkReadsAtMost}

module _ {D : Type 0} (lib : Libusb D) (device : LibusbDevice) (h : ℕ) (flush : D → D) where
  -- Bulk reads and writes; `flush` is libusb_flush.
  abbrev pub usb_of : Usb D
  usb_of = record {
    libusb_write = λ d bytes. libusb_write lib device h bytes d;
    libusb_read = λ d n. libusb_read lib device h n d;
    libusb_flush = flush;
  }

  -- Control messages.
  abbrev pub urbs_of : Urbs D
  urbs_of = record {
    urb_out = λ d setup bytes. control_out_result (lib.usb_control_out d h setup bytes);
    urb_in = λ d setup n. control_in_result (lib.usb_control_in d h setup n);
    libusb_flush = flush;
  }

  read_length :
      (n : ℕ) (d : D) (o : Option (List ℕ))
      → BulkReadsAtMost lib
      → (lib.usb_bulk_read d h device.in_endpoint n).0 ≡ o
      → length (libusb_read lib device h n d).0 ≤ n
  unfolding read_result
  read_length n d none reads e = rw e (omega arith)
  read_length n d (some bytes) reads e = rw e (reads d h device.in_endpoint n bytes e)

  -- A read through libusbi.c gives no more bytes than were asked for, if one of libusb does.
  pub usb_of-ReadsAtMost : BulkReadsAtMost lib → ReadsAtMost usb_of
  usb_of-ReadsAtMost reads d n =
      read_length n d (lib.usb_bulk_read d h device.in_endpoint n).0 reads refl

  control_length :
      (setup : Setup) (n : ℕ) (d : D) (o : Option (List ℕ))
      → ((bytes : List ℕ) → o ≡ some bytes → length bytes ≤ n)
      → (lib.usb_control_in d h setup n).0 ≡ o
      → length (urbs_of.urb_in d setup n).0 ≤ n
  unfolding control_in_result
  control_length setup n d none reads e = rw e (omega arith)
  control_length setup n d (some bytes) reads e = rw e (reads bytes refl)

  -- A control message from the device brings no more bytes than were asked for, if one of libusb does.
  pub urbs_of-UrbsAtMost :
      ((d : D) (setup : Setup) (n : ℕ) (bytes : List ℕ)
        → (lib.usb_control_in d h setup n).0 ≡ some bytes
        → length bytes ≤ n)
      → UrbsAtMost urbs_of
  urbs_of-UrbsAtMost reads d setup n =
      control_length setup n d (lib.usb_control_in d h setup n).0 (reads d setup n) refl
