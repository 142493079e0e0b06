-- ===== src/Scanbuttond/Messages.antt =====
-- The backends of src/scanbuttond/backends that talk by control messages: the tables of hp3900.c,
-- genesys.c, hp5590.c, niash.c and artec_eplus48u.c, and scanbtnd_get_button of the last two and of
-- gt68xx.c. `none`
-- is an access outside a buffer.
pub mod Answer
use scanbd.Prelude.{
  ℕ, ◌==◌, ◌>>=◌, if◌then◌else◌, Option, none, some, List, [], ◌∷◌, ◌++◌, get_elem?, lit, ℤ, pos,
}
use scanbd.Scanbuttond.Device.{Scanner, Backend, einval}
use scanbd.Scanbuttond.Tables.{row}
use scanbd.Scanbuttond.Exchange.{fill}
use scanbd.Scanbuttond.Libusbi.Calls.{Setup}
use scanbd.Scanbuttond.Hp5590.{Urbs}
use scanbd.Scanbuttond.Buttons.{gt68xx_request, gt68xx_answer}

abbrev pub hp3900 : Backend
hp3900 = record {
  prefix = lit "hp3900:libusb:";
  supported_usb_devices =
      row 1008 9733 3
      ∷ row 1008 8965 4
      ∷ row 1008 9221 4
      ∷ row 1008 16645 4
      ∷ row 1008 10245 3
      ∷ row 1008 16901 4
      ∷ row 1008 17157 4
      ∷ row 1756 32 4
      ∷ row 1189 8721 3
      ∷ [];
  usb_device_descriptions =
      (lit "Hewlett-Packard", lit "ScanJet 3800")
      ∷ (lit "Hewlett-Packard", lit "ScanJet 3970")
      ∷ (lit "Hewlett-Packard", lit "Scanjet 4070 Photosmart")
      ∷ (lit "Hewlett-Packard", lit "Scanjet 4370")
      ∷ (lit "Hewlett-Packard", lit "ScanJet G2710")
      ∷ (lit "Hewlett-Packard", lit "Scanjet G3010")
      ∷ (lit "Hewlett-Packard", lit "Scanjet G3110")
      ∷ (lit "UMAX", lit "Astra 4900/4950")
      ∷ (lit "BenQ", lit "5550T")
      ∷ [];
}

abbrev pub genesys : Backend
genesys = record {
  prefix = lit "genesys:libusb:";
  supported_usb_devices = row 1193 8732 15 ∷ row 1193 8723 15 ∷ row 1193 6405 15 ∷ [];
  usb_device_descriptions =
      (lit "Canon", lit "CanoScan LiDE 60")
      ∷ (lit "Canon", lit "CanoScan LiDE 35")
      ∷ (lit "Canon", lit "CanoScan LiDE 200")
      ∷ [];
}

-- The first two rows are for the same device.
abbrev pub hp5590 : Backend
hp5590 = record {
  prefix = lit "hp5590:libusb:";
  supported_usb_devices =
      row 1008 4869 5 ∷ row 1008 4869 5 ∷ row 1008 5893 5 ∷ row 1008 6149 5 ∷ [];
  usb_device_descriptions =
      (lit "Hewlett-Packard", lit "ScanJet 4570")
      ∷ (lit "Hewlett-Packard", lit "ScanJet 5550")
      ∷ (lit "Hewlett-Packard", lit "Scanjet 5590")
      ∷ (lit "Hewlett-Packard", lit "Scanjet 7650")
      ∷ [];
}

abbrev pub niash : Backend
niash = record {
  prefix = lit "niash:libusb:";
  supported_usb_devices =
      row 1725 256 4 ∷ row 1008 517 2 ∷ row 1008 1029 3 ∷ row 1008 773 3 ∷ row 1147 4098 3 ∷ [];
  usb_device_descriptions =
      (lit "Agfa", lit "Snapscan Touch")
      ∷ (lit "Hewlett-Packard", lit "Scanjet 3300c")
      ∷ (lit "Hewlett-Packard", lit "Scanjet 3400c")
      ∷ (lit "Hewlett-Packard", lit "Scanjet 4300c")
      ∷ (lit "Hewlett-Packard", lit "Scanjet 4300c")
      ∷ [];
}

abbrev pub artec_eplus48u : Backend
artec_eplus48u = record {
  prefix = lit "artec_eplus48u:libusb:";
  supported_usb_devices = row 1496 16387 4 ∷ [];
  usb_device_descriptions = (lit "Artec", lit "E+48U") ∷ [];
}

-- switch (bytes[3]), niash.c
unfoldable pub niash_button : ℕ → ℕ
niash_button b =
    if b == 2 then 1 else if b == 4 then 2 else if b == 8 then 3 else if b == 16 then 4 else 0

-- switch (bytes[2]), artec_eplus48u.c
unfoldable pub artec_button : ℕ → ℕ
artec_button b =
    if b == 8 then 1 else if b == 2 then 2 else if b == 4 then 3 else if b == 1 then 4 else 0

abbrev eight_bytes : List ℕ
eight_bytes = 116 ∷ 1 ∷ 0 ∷ 0 ∷ 0 ∷ 0 ∷ 0 ∷ 0 ∷ []

abbrev pub request_packet : List ℕ
request_packet =
    eight_bytes ++ eight_bytes ++ eight_bytes ++ eight_bytes ++ eight_bytes ++ eight_bytes
    ++ eight_bytes ++ eight_bytes

module _ {D : Type 0} (usb : Urbs D) where
  -- A write of the loop of niash.c, of one byte.
  abbrev pub niash_write : ℕ → ℕ → D → D
  niash_write value byte d =
      (usb.urb_out d (record { request = 12; value = value; index = 0 }) (byte ∷ [])).1

  -- The five rounds of the loop of niash.c; the numbers of bytes are not looked at, as they are never
  -- negative. The fourth reads bytes[3], in front of the rest of the array, which is not read again.
  unfoldable pub niash_get_button : List ℕ → Scanner → D → Option (ℤ × D)
  niash_get_button rest s d =
      let d3 = niash_write 135 52 (niash_write 131 46 (niash_write 135 20 d)) in
      let (bytes, d4) = usb.urb_in d3 (record { request = 12; value = 132; index = 0 }) 1 in
      let asked = (do
        buffer ← fill bytes (255 ∷ rest)
        byte ← get_elem? buffer 0
        some (pos (niash_button byte), niash_write 135 20 d4)) in
      if s.is_open then asked else some (einval, d)

  -- `junk` is the uninitialised buffer of 64 bytes.
  unfoldable pub artec_get_button : List ℕ → Scanner → D → Option (ℤ × D)
  artec_get_button junk s d =
      let (sent, d') =
        usb.urb_out d (record { request = 1; value = 8210; index = 16192 }) request_packet in
      let (bytes, d'') = usb.urb_in d' (record { request = 1; value = 8211; index = 16128 }) 64 in
      let asked = (do
        buffer ← fill bytes junk
        byte ← get_elem? buffer 2
        some (pos (artec_button byte), d'')) in
      if s.is_open then asked else some (einval, d)

  -- gt68xx_write and gt68xx_read pass the setup of a control message; the numbers of bytes are not
  -- looked at, as libusb_control_msg does not give a negative one.
  unfoldable pub gt68xx_get_button : Scanner → D → Option (ℤ × D)
  gt68xx_get_button s d =
      let (sent, d') =
        usb.urb_out d (record { request = 4; value = 8208; index = 16192 }) (gt68xx_request 64) in
      let (bytes, d'') = usb.urb_in d' (record { request = 4; value = 8209; index = 16128 }) 64 in
      let asked = (do buffer ← fill bytes (gt68xx_request 255); gt68xx_answer buffer d'') in
      if s.is_open then asked else some (einval, d)
