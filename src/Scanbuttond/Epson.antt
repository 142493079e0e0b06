-- ===== src/Scanbuttond/Epson.antt =====
-- scanbtnd_get_button of epson.c and epson_vphoto.c in src/scanbuttond/backends, with their tables.
-- `none` is an access outside a buffer.
pub mod Overflow
use scanbd.Prelude.{
  ℕ, ◌+◌, ◌*◌, ◌==◌, ltb, ◌>>=◌, if◌then◌else◌, Bool, true, false, Option, none, some, List, [],
  ◌∷◌, length, get_elem?, lit, ℤ, pos,
}
use scanbd.Scanbuttond.Device.{Scanner, Backend, einval}
use scanbd.Scanbuttond.Tables.{row}
use scanbd.Scanbuttond.Exchange.{Usb, fill, query}
use scanbd.Scanbuttond.Buttons.{ask}

abbrev pub epson : Backend
epson = record {
  prefix = lit "epson:libusb:";
  supported_usb_devices =
      row 1208 263 1
      ∷ row 1208 270 1
      ∷ row 1208 300 1
      ∷ row 1208 259 1
      ∷ row 1208 257 3
      ∷ row 1208 268 3
      ∷ row 1208 260 1
      ∷ row 1208 267 3
      ∷ row 1208 266 1
      ∷ row 1208 272 4
      ∷ row 1208 286 4
      ∷ row 1208 283 4
      ∷ row 1208 274 1
      ∷ row 1208 284 1
      ∷ row 1208 2050 1
      ∷ row 1208 262 1
      ∷ [];
  usb_device_descriptions =
      (lit "Epson", lit "Expression 1600")
      ∷ (lit "Epson", lit "Expression 1680")
      ∷ (lit "Epson", lit "Perfection V700")
      ∷ (lit "Epson", lit "Perfection 610")
      ∷ (lit "Epson", lit "Perfection 636U")
      ∷ (lit "Epson", lit "Perfection 640")
      ∷ (lit "Epson", lit "Perfection 1200U")
      ∷ (lit "Epson", lit "Perfection 1240")
      ∷ (lit "Epson", lit "Perfection 1640")
      ∷ (lit "Epson", lit "Perfection 1650")
      ∷ (lit "Epson", lit "Perfection 1660")
      ∷ (lit "Epson", lit "Perfection 2400")
      ∷ (lit "Epson", lit "Perfection 2450")
      ∷ (lit "Epson", lit "Perfection 3200")
      ∷ (lit "Epson", lit "Stylus CX3200")
      ∷ (lit "Epson", lit "Stylus Scan 2500")
      ∷ [];
}

abbrev pub epson_vphoto : Backend
epson_vphoto = record {
  prefix = lit "epkowa:interpreter:";
  supported_usb_devices = row 1208 302 4 ∷ row 1208 281 4 ∷ row 1208 307 5 ∷ [];
  usb_device_descriptions =
      (lit "Epson", lit "Perfection V200")
      ∷ (lit "Epson", lit "Perfection 4490")
      ∷ (lit "Epson", lit "GT-1500")
      ∷ [];
}

-- MAX(a, b)
abbrev pub larger : ℕ → ℕ → ℕ
larger a b = if ltb b a then a else b

module _ {D : Type 0} (usb : Usb D) where
  -- The read of the answer, once its length is known: more than BUFFER_SIZE bytes may be asked for.
  unfoldable pub epson_read : ℕ → List ℕ → D → Option (ℤ × D)
  epson_read rcv_len buffer d =
      let (bytes, d') = usb.libusb_read d (larger rcv_len 16) in
      do
        buffer' ← fill bytes buffer
        first ← get_elem? buffer' 0
        (if length bytes == rcv_len
            then some (pos first, d')
            else some (pos 0, usb.libusb_flush d'))

  -- rcv_len = bytes[3] << 8 | bytes[2], and the read of the answer.
  unfoldable pub epson_reply : Option (List ℕ) → D → Option (ℤ × D)
  epson_reply none d = some (pos 0, d)
  epson_reply (some buffer) d = do
    low ← get_elem? buffer 2
    high ← get_elem? buffer 3
    epson_read (high * 256 + low) buffer d

  -- The request, ESC and '!', and a NUL in front of a buffer of 16 bytes whose rest is `junk`.
  unfoldable pub epson_get_button : List ℕ → Scanner → D → Option (ℤ × D)
  epson_get_button junk s d =
      let asked = (do
        (reply, d') ← query usb (27 ∷ 33 ∷ []) 4 (27 ∷ 33 ∷ 0 ∷ junk) d
        epson_reply reply d') in
      if s.is_open then asked else some (einval, d)

  -- The byte that is read, as it is.
  abbrev pub epson_vphoto_get_button : List ℕ → Scanner → D → Option (ℤ × D)
  epson_vphoto_get_button junk = ask usb (30 ∷ 133 ∷ []) 1 (30 ∷ 133 ∷ 0 ∷ junk) (λ b. b) 0
