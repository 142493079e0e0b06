-- ===== src/Scanbuttond/Tables.antt =====
-- The tables of the backends plustek.c, plustek_umax.c, hp3500.c, mustek.c, snapscan.c and gt68xx.c
-- in src/scanbuttond/backends.
use scanbd.Prelude.{[], ◌∷◌, ℕ, lit}
use scanbd.Scanbuttond.Device.{Supported, Backend}

abbrev pub row : ℕ → ℕ → ℕ → Supported
row vendor product num_buttons = record {
  vendor = vendor;
  product = product;
  num_buttons = num_buttons;
}

abbrev pub plustek : Backend
plustek = record {
  prefix = lit "plustek:libusb:";
  supported_usb_devices =
      row 1193 8711 1
      ∷ row 1193 8712 1
      ∷ row 1193 8710 1
      ∷ row 1193 8717 3
      ∷ row 1193 8736 3
      ∷ row 1193 8718 3
      ∷ row 1208 285 4
      ∷ row 1008 1541 2
      ∷ row 1112 8199 5
      ∷ [];
  usb_device_descriptions =
      (lit "Canon", lit "CanoScan N1220U")
      ∷ (lit "Canon", lit "CanoScan D660U")
      ∷ (lit "Canon", lit "CanoScan N650U")
      ∷ (lit "Canon", lit "CanoScan LiDE 20")
      ∷ (lit "Canon", lit "CanoScan LiDE 25")
      ∷ (lit "Canon", lit "CanoScan LiDE 30")
      ∷ (lit "Epson", lit "Perfection 1260")
      ∷ (lit "Hewlett-Packard", lit "ScanJet 2200c")
      ∷ (lit "Genius (KYE)", lit "ColorPage-HR6 V2")
      ∷ [];
}

abbrev pub plustek_umax : Backend
plustek_umax = record {
  prefix = lit "plustek:libusb:";
  supported_usb_devices = row 5638 96 4 ∷ [];
  usb_device_descriptions = (lit "UMAX", lit "Astra 3400/3450") ∷ [];
}

abbrev pub hp3500 : Backend
hp3500 = record {
  prefix = lit "hp3500:libusb:";
  supported_usb_devices = row 1008 8709 3 ∷ [];
  usb_device_descriptions = (lit "Hewlett-Packard", lit "ScanJet 3500C") ∷ [];
}

abbrev pub mustek : Backend
mustek = record {
  prefix = lit "mustek:libusb:";
  supported_usb_devices = row 1375 1033 5 ∷ [];
  usb_device_descriptions = (lit "Mustek", lit "BearPaw 2448TA") ∷ [];
}

abbrev pub snapscan : Backend
snapscan = record {
  prefix = lit "snapscan:libusb:";
  supported_usb_devices = row 1208 289 4 ∷ row 1208 287 4 ∷ row 1208 290 4 ∷ row 1208 288 4 ∷ [];
  usb_device_descriptions =
      (lit "Epson", lit "Perfection 2480 / 2580")
      ∷ (lit "Epson", lit "Perfection 1670")
      ∷ (lit "Epson", lit "Perfection 3490 / 3590")
      ∷ (lit "Epson", lit "Perfection 1270")
      ∷ [];
}

abbrev pub gt68xx : Backend
gt68xx = record {
  prefix = lit "gt68xx:libusb:";
  supported_usb_devices = row 1112 8212 5 ∷ [];
  usb_device_descriptions = (lit "Genius", lit "Colorpage Vivid4") ∷ [];
}
