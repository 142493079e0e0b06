-- ===== src/Scanbuttond/Tests.antt =====
-- The backends of src/scanbuttond/backends on small inputs.
use scanbd.Prelude.{
  ℕ, suc, ◌≡◌, refl, true, false, some, List, [], ◌∷◌, lit, length, map, All, replicate, pos, take,
  length-take, arith, subst, sym, ◌≤◌,
}
use scanbd.Scanbuttond.Device.{UsbDevice, Scanner, Bus, scanbtnd_rescan}
use scanbd.Scanbuttond.Tables.{plustek, mustek, row}
use scanbd.Scanbuttond.Buttons.Supported.{on_mustek, get_button-supported}
use scanbd.Scanbuttond.Device.Scan.{newest_first, IsNew, scanbtnd_rescan-newest_first}
use scanbd.Scanbuttond.Device.{set_open}
use scanbd.Scanbuttond.Exchange.{Usb, ReadsAtMost, query, receive, fill}
use scanbd.Scanbuttond.Buttons.{
  ask, answer, plustek_button, last_pressed, plustek_get_button, mustek_get_button,
}
use scanbd.Scanbuttond.Buttons.Answer.{Answers}
use scanbd.Scanbuttond.Hp5590.{Urbs}
use scanbd.Scanbuttond.Hp5590.Ensures.{UrbsAtMost}

abbrev lide : UsbDevice
lide = record { vendor_id = 1193; product_id = 8712; location = lit "001:002" }

abbrev mouse : UsbDevice
mouse = record { vendor_id = 1133; product_id = 49155; location = lit "001:003" }

abbrev scanner : Scanner
scanner = record {
  vendor = lit "Canon";
  product = lit "LIDE 20";
  device = lide;
  lastbutton = 0;
  sane_device = lit "plustek:libusb:001:002";
  num_buttons = 3;
  is_open = true;
}

-- A bus on which all goes well, and an exchange that answers with the number that is the state.
abbrev bus : Bus ℕ
bus = record {
  changed_device_count = λ d. 0;
  libusb_open = λ d device. (pos 0, suc d);
  libusb_close = λ d device. (pos 0, suc d);
}

abbrev usb : Usb ℕ
usb = record {
  libusb_write = λ d bytes. (length bytes, d);
  libusb_read = λ d n. (take n (d ∷ replicate 63 0), d);
  libusb_flush = λ d. d;
}

usb_reads : ReadsAtMost usb
usb_reads d n = omega (arith, length-take n (d ∷ replicate 63 0))

-- 0x72: the scan button of a LIDE 20.
lide_scan : plustek_get_button usb scanner 114 ≡ some (pos 1, 114)
unfolding ask query receive fill answer plustek_button last_pressed
lide_scan = refl

scanbtnd_rescan-newest_first_example :
    (scanners : List Scanner) × (scanbtnd_rescan plustek (mouse ∷ lide ∷ []) [] ≡ some scanners)
    × (map Scanner.device scanners ≡ newest_first plustek (mouse ∷ lide ∷ []))
    × All (IsNew plustek) scanners
scanbtnd_rescan-newest_first_example =
    scanbtnd_rescan-newest_first plustek refl (mouse ∷ lide ∷ []) []

-- A scanner of the backend mustek, as a rescan makes it.
abbrev usb600 : Scanner
usb600 = record scanner {
  device = record { vendor_id = 1375; product_id = 1033; location = lit "001:004" };
  sane_device = lit "mustek:libusb:001:004";
  num_buttons = 5;
  is_open = false;
}

usb600-IsNew : IsNew mustek usb600
usb600-IsNew = (row 1375 1033 5, refl, refl, refl, refl)

-- Messages of a device that gives the start of a packet of gt68xx.c.
abbrev urbs : Urbs ℕ
urbs = record {
  urb_out = λ d setup bytes. (length bytes, d);
  urb_in = λ d setup n. (take n (0 ∷ 41 ∷ 8 ∷ []), d);
  libusb_flush = λ d. d;
}

urbs_reads : UrbsAtMost urbs
urbs_reads d setup n = subst (λ k. k ≤ n) (sym (length-take n (0 ∷ 41 ∷ 8 ∷ []))) (omega arith)

get_button-supported_example :
    Answers true 5 (mustek_get_button usb (replicate 7 0) (set_open true usb600) 24)
get_button-supported_example =
    get_button-supported usb usb_reads urbs urbs_reads on_mustek usb600 24 (replicate 7 0) refl
      usb600-IsNew
