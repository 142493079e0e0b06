-- ===== src/Scanbuttond/Libusbi/Calls.antt =====
-- Opening, closing, reading and writing of a device, and the count of its users, in
-- src/scanbuttond/interface/libusbi.c. `none` is a call on a handle that is NULL.
use scanbd.Prelude.{
  ℕ, zero, suc, ◌==◌, ◌>>=◌, if◌then◌else◌, Bool, true, false, Option, none, some, List, [], length,
  ℤ, pos, negsuc, is_neg, ltb,
}
use scanbd.Scanbuttond.Device.{enodev, is_zero, UsbDevice}
use scanbd.Scanbuttond.Exchange.{fill}
use scanbd.Scanbuttond.Libusbi.{RawDevice, LibusbDevice}

-- The request, the value and the index of a control message.
pub record Setup : Type 0 where
  pub request : ℕ
  pub value : ℕ
  pub index : ℕ

-- The calls of libusb, whose state is a `D`. A read or a control message gives the bytes that
-- arrive, `none` for a negative number; a number is that of the bytes sent or an error's.
pub record Libusb (D : Type 0) : Type 0 where
  pub usb_find_devices : D → ℕ × D
  pub usb_open : D → RawDevice → Option ℕ × D
  pub usb_claim_interface : D → ℕ → ℕ → ℤ × D
  pub usb_release_interface : D → ℕ → ℕ → ℤ × D
  pub usb_close : D → ℕ → ℤ × D
  pub usb_bulk_read : D → ℕ → ℕ → ℕ → Option (List ℕ) × D
  pub usb_bulk_write : D → ℕ → ℕ → List ℕ → ℤ × D
  pub usb_clear_halt : D → ℕ → ℕ → D
  pub usb_control_in : D → ℕ → Setup → ℕ → Option (List ℕ) × D
  pub usb_control_out : D → ℕ → Setup → List ℕ → ℤ × D

abbrev pub ebusy : ℤ
ebusy = negsuc 15

-- switch (result) of libusb_open, for a result that is not 0: ENOMEM, EBUSY, another.
unfoldable pub claim_error : ℤ → ℤ
claim_error (pos n) = enodev
claim_error (negsuc n) = if n == 11 then enodev else if n == 15 then ebusy else enodev

-- What the backends read of a device.
abbrev pub as_usb_device : LibusbDevice → UsbDevice
as_usb_device device = record {
  vendor_id = device.vendor_id;
  product_id = device.product_id;
  location = device.location;
}

-- A negative number of bytes is given on as 0.
unfoldable pub byte_count : ℤ → ℕ
byte_count (pos n) = n
byte_count (negsuc n) = 0

-- The end of libusb_close, after usb_close.
unfoldable pub usb_closed : {D : Type 0} → ℤ × D → ℤ × D
usb_closed (result, d) = if is_neg result then (result, d) else (pos 0, d)

-- The test of the loop of libusb_flush: the bytes of a read go to the start of its buffer.
unfoldable pub flush_test : {D : Type 0} → List ℕ → Option (List ℕ) × D → Option (Bool × D)
flush_test buffer (none, d) = some (false, d)
flush_test buffer (some bytes, d) = do buffer' ← fill bytes buffer; some (ltb 0 (length bytes), d)

module _ {D : Type 0} (lib : Libusb D) where
  abbrev pub libusb_get_changed_device_count : D → ℕ × D
  libusb_get_changed_device_count d = lib.usb_find_devices d

  unfoldable pub claimed : LibusbDevice → ℕ → ℤ × D → ℤ × LibusbDevice × D
  claimed device h (result, d) =
      if is_zero result
      then (pos 0, device, d)
      else (claim_error result, device, (lib.usb_close d h).1)

  unfoldable pub usb_opened : LibusbDevice → Option ℕ × D → ℤ × LibusbDevice × D
  usb_opened device (none, d) = (enodev, record device { handle = none }, d)
  usb_opened device (some h, d) =
      claimed (record device { handle = some h }) h (lib.usb_claim_interface d h device.interface)

  abbrev pub libusb_open : LibusbDevice → D → ℤ × LibusbDevice × D
  libusb_open device d = usb_opened device (lib.usb_open d device.device)

  unfoldable pub released : ℕ → ℤ × D → ℤ × D
  released h (result, d) = if is_neg result then (result, d) else usb_closed (lib.usb_close d h)

  unfoldable pub libusb_close : LibusbDevice → D → Option (ℤ × D)
  libusb_close device d = do
    h ← device.handle
    some (released h (lib.usb_release_interface d h device.interface))

  unfoldable pub read_result : LibusbDevice → ℕ → Option (List ℕ) × D → List ℕ × D
  read_result device h (none, d) = ([], lib.usb_clear_halt d h device.in_endpoint)
  read_result device h (some bytes, d) = (bytes, d)

  unfoldable pub write_result : LibusbDevice → ℕ → ℤ × D → ℕ × D
  write_result device h (result, d) =
      (byte_count result, if is_neg result then lib.usb_clear_halt d h device.in_endpoint else d)

  -- On a device whose handle is `h`.
  abbrev pub libusb_read : LibusbDevice → ℕ → ℕ → D → List ℕ × D
  libusb_read device h bytecount d =
      read_result device h (lib.usb_bulk_read d h device.in_endpoint bytecount)

  abbrev pub libusb_write : LibusbDevice → ℕ → List ℕ → D → ℕ × D
  libusb_write device h buffer d =
      write_result device h (lib.usb_bulk_write d h device.out_endpoint buffer)

-- libusb_control_msg from the device and to it, with what usb_control_msg gives.
unfoldable pub control_in_result : {D : Type 0} → Option (List ℕ) × D → List ℕ × D
control_in_result (none, d) = ([], d)
control_in_result (some bytes, d) = (bytes, d)

unfoldable pub control_out_result : {D : Type 0} → ℤ × D → ℕ × D
control_out_result (result, d) = (byte_count result, d)

-- The number of users, invocation_count, and the list of devices of a handle.
pub record Users : Type 0 where
  pub invocation_count : ℤ
  pub initialised : ℕ

unfoldable pub add_one : ℤ → ℤ
add_one (pos n) = pos (suc n)
add_one (negsuc zero) = pos 0
add_one (negsuc (suc n)) = negsuc n

unfoldable pub sub_one : ℤ → ℤ
sub_one (pos zero) = negsuc 0
sub_one (pos (suc n)) = pos n
sub_one (negsuc n) = negsuc (suc n)

abbrev pub is_one : ℤ → Bool
is_one (pos (suc zero)) = true
is_one _ = false

-- libusb_init and libusb_exit, as far as they count: usb_init is called for the first user.
unfoldable pub libusb_init : Users → Users
unfolding add_one
libusb_init u =
    let count = add_one u.invocation_count in
    record {
      invocation_count = count;
      initialised = if is_one count then suc u.initialised else u.initialised;
    }

unfoldable pub libusb_exit : Users → Users
unfolding sub_one
libusb_exit u = record u { invocation_count = sub_one u.invocation_count }

module _ {D : Type 0} (lib : Libusb D) where
  -- The loop of libusb_flush, for `fuel` reads at most; `none` when they do not do, too.
  unfoldable pub libusb_flush : ℕ → LibusbDevice → ℕ → List ℕ → D → Option D
  libusb_flush zero device h buffer d = none
  libusb_flush (suc fuel) device h buffer d = do
    (more, d') ← flush_test buffer (lib.usb_bulk_read d h device.in_endpoint 16)
    let rest = libusb_flush fuel device h buffer d' in if more then rest else some d'
