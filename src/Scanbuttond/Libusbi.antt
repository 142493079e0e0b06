-- ===== src/Scanbuttond/Libusbi.antt =====
-- The list of USB devices of src/scanbuttond/interface/libusbi.c: which devices are attached, by which
-- interface and which endpoints. `none` is an access outside an array.
pub mod Attached
pub mod Calls
pub mod Handles
pub mod Flush
pub mod Interface
use scanbd.Prelude.{
  ℕ, zero, suc, ◌/◌, ◌%◌, ◌==◌, ◌||◌, ◌>>=◌, if◌then◌else◌, Bool, true, false, Option, none, some,
  List, [], ◌∷◌, ◌++◌, get_elem?, CString, lit,
}

-- struct usb_endpoint_descriptor: bEndpointAddress and bmAttributes.
pub record Endpoint : Type 0 where
  pub address : ℕ
  pub attributes : ℕ

-- The first struct usb_interface_descriptor of an interface: bInterfaceClass and its endpoints.
pub record AltSetting : Type 0 where
  pub interface_class : ℕ
  pub endpoints : List Endpoint

-- struct usb_device of libusb, as far as libusbi.c reads it: `interfaces` are those of config[0].
pub record RawDevice : Type 0 where
  pub vendor : ℕ
  pub product : ℕ
  pub device_class : ℕ
  pub interfaces : List AltSetting
  pub dirname : CString
  pub filename : CString

-- libusb_device_t; a handle is a number, `none` for NULL.
pub record LibusbDevice : Type 0 where
  pub vendor_id : ℕ
  pub product_id : ℕ
  pub location : CString
  pub device : RawDevice
  pub handle : Option ℕ
  pub interface : ℕ
  pub out_endpoint : ℕ
  pub in_endpoint : ℕ

-- The two switches of libusb_search_interface.
unfoldable pub is_usable : ℕ → AltSetting → Bool
is_usable device_class alt =
    if device_class == 255
    then true
    else if device_class == 0
    then alt.interface_class == 255 || alt.interface_class == 0 || alt.interface_class == 16
    else false

-- The loop of libusb_search_interface from the interface `n` on; `none` is -1.
unfoldable pub search_from : ℕ → ℕ → List AltSetting → Option ℕ
search_from device_class n [] = none
search_from device_class n (alt ∷ alts) =
    let rest = search_from device_class (suc n) alts in
    if is_usable device_class alt then some n else rest

abbrev pub libusb_search_interface : RawDevice → Option ℕ
libusb_search_interface device = search_from device.device_class 0 device.interfaces

abbrev pub is_bulk : Endpoint → Bool
is_bulk endpoint = endpoint.attributes % 4 == 2

-- direction, not 0
abbrev pub is_in : Endpoint → Bool
is_in endpoint = endpoint.address / 128 % 2 == 1

-- `if (!ep) ep = address;`
abbrev pub or_address : ℕ → Endpoint → ℕ
or_address ep endpoint = if ep == 0 then endpoint.address else ep

-- The loop of libusb_search_in_endpoint and libusb_search_out_endpoint: usb_in_ep and usb_out_ep.
unfoldable pub search_endpoints : ℕ → ℕ → List Endpoint → ℕ × ℕ
search_endpoints in_ep out_ep [] = (in_ep, out_ep)
search_endpoints in_ep out_ep (endpoint ∷ endpoints) =
    search_endpoints
      (if is_bulk endpoint
        then (if is_in endpoint then or_address in_ep endpoint else in_ep)
        else in_ep)
      (if is_bulk endpoint
        then (if is_in endpoint then out_ep else or_address out_ep endpoint)
        else out_ep)
      endpoints

-- Both search the endpoints of the first interface.
abbrev pub libusb_search_in_endpoint : RawDevice → Option ℕ
libusb_search_in_endpoint device = do
  alt ← get_elem? device.interfaces 0
  some (search_endpoints 0 0 alt.endpoints).0

abbrev pub libusb_search_out_endpoint : RawDevice → Option ℕ
libusb_search_out_endpoint device = do
  alt ← get_elem? device.interfaces 0
  some (search_endpoints 0 0 alt.endpoints).1

-- A device of an interface that is found is put in front; no endpoint is negative.
unfoldable pub attach_interface :
    RawDevice → List LibusbDevice → Option ℕ → Option (List LibusbDevice)
attach_interface device devices none = some devices
attach_interface device devices (some interface) = do
  out_endpoint ← libusb_search_out_endpoint device
  in_endpoint ← libusb_search_in_endpoint device
  some (
      record {
        vendor_id = device.vendor;
        product_id = device.product;
        location = device.dirname ++ lit ":" ++ device.filename;
        device = device;
        handle = none;
        interface = interface;
        out_endpoint = out_endpoint;
        in_endpoint = in_endpoint;
      }
      ∷ devices)

abbrev pub libusb_attach_device : RawDevice → List LibusbDevice → Option (List LibusbDevice)
libusb_attach_device device devices =
    attach_interface device devices (libusb_search_interface device)

-- The inner loop of libusb_rescan, over the devices of a bus, and the outer one, over the buses.
unfoldable pub attach_devices : List RawDevice → List LibusbDevice → Option (List LibusbDevice)
attach_devices [] devices = some devices
attach_devices (device ∷ bus) devices = do
  devices' ← libusb_attach_device device devices
  attach_devices bus devices'

unfoldable pub attach_busses :
    List (List RawDevice) → List LibusbDevice → Option (List LibusbDevice)
attach_busses [] devices = some devices
attach_busses (bus ∷ busses) devices = do
  devices' ← attach_devices bus devices
  attach_busses busses devices'

abbrev pub libusb_detach_devices : List LibusbDevice → List LibusbDevice
libusb_detach_devices devices = []

-- `busses` is what libusb lists after usb_find_busses and usb_find_devices.
abbrev pub libusb_rescan : List (List RawDevice) → List LibusbDevice → Option (List LibusbDevice)
libusb_rescan busses devices = attach_busses busses (libusb_detach_devices devices)
