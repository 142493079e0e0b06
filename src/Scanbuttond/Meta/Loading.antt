-- ===== src/Scanbuttond/Meta/Loading.antt =====
-- The backends over src/scanbuttond/interface/libusbi.c behind the meta backend, meta.c in
-- src/scanbuttond/backends: a scan of all of them, and the buttons of what it lists.
use scanbd.Prelude.{
  ℕ, zero, suc, ◌≤◌, ◌*◌, ◌≡◌, refl, ap, ◌∙◌, ◌==◌, ◌>>=◌, if◌then◌else◌, true, ==_iff, Option,
  none, some, List, [], ◌∷◌, ◌++◌, map, length, All, All-append, take, ℤ, CString,
}
use scanbd.Scanbuttond.Device
use scanbd.Scanbuttond.Device.{UsbDevice, Scanner, Bus}
use scanbd.Scanbuttond.Device.Scan.{IsNew, scanbtnd_rescan-newest_first}
use scanbd.Scanbuttond.Device.{set_open}
use scanbd.Scanbuttond.Exchange.{Usb, ReadsAtMost}
use scanbd.Scanbuttond.Hp5590.{Urbs}
use scanbd.Scanbuttond.Hp5590.Ensures.{UrbsAtMost}
use scanbd.Scanbuttond.Buttons.Answer.{IsReply}
use scanbd.Scanbuttond.Buttons.Supported.{
  Loaded, on_plustek, on_plustek_umax, on_hp3500, on_mustek, on_snapscan, on_gt68xx, tables,
  junk_length, get_button, get_button-supported,
}
use scanbd.Scanbuttond.Libusbi.{RawDevice, libusb_rescan}
use scanbd.Scanbuttond.Libusbi.Calls.{as_usb_device}
use scanbd.Scanbuttond.Libusbi.Attached.{libusb_rescan-IsAttached}
use scanbd.Scanbuttond.Meta.{
  Module, MetaScanner, Meta, scanbtnd_rescan, scanbtnd_get_button, button_by,
}
use scanbd.Scanbuttond.Meta.Listed.{
  newest_tagged, list_scanners, with_scanners, scanbtnd_rescan-list_scanners,
  scanbtnd_rescan-IsDispatched,
}

-- The devices on the buses, the scanners of each backend, and the state of the devices.
pub record World (D : Type 0) : Type 0 where
  pub busses : List (List RawDevice)
  pub scanners : Loaded → List Scanner
  pub devices : D

abbrev number : Loaded → ℕ
number on_plustek = 0
number on_plustek_umax = 1
number on_hp3500 = 2
number on_mustek = 3
number on_snapscan = 4
number on_gt68xx = 5

abbrev pub with_list : (Loaded → List Scanner) → Loaded → List Scanner → Loaded → List Scanner
with_list lists backend new other = if number backend == number other then new else lists other

abbrev pub button_result : {D : Type 0} → World D → Option (ℤ × D) → Option (ℤ × World D)
button_result w none = none
button_result w (some (r, d)) = some (r, record w { devices = d })

module _ {D : Type 0} (bus : Bus D) (usb : Usb D) (urbs : Urbs D) (junk : Loaded → List ℕ) where
  -- scanbtnd_rescan of a backend, over libusb_rescan.
  abbrev pub rescan_world : Loaded → World D → Option (World D)
  rescan_world backend w = do
    devices ← libusb_rescan w.busses []
    new ← Device.scanbtnd_rescan (tables backend) (map as_usb_device devices) (w.scanners backend)
    some (record w { scanners = with_list w.scanners backend new })

  -- A backend as the meta backend calls it; its start makes the same scan.
  abbrev pub module_of : CString → Loaded → Module (World D)
  module_of name backend = record {
    name = name;
    init = rescan_world backend;
    rescan = rescan_world backend;
    get_supported_devices = λ w. w.scanners backend;
    open_scanner = λ s w.
        let (r, s', d) = Device.scanbtnd_open bus s w.devices in (r, s', record w { devices = d });
    close_scanner = λ s w.
        let (r, s', d) = Device.scanbtnd_close bus s w.devices in (r, s', record w { devices = d });
    get_button = λ s w. button_result w (get_button backend usb urbs (junk backend) s w.devices);
    exit = λ w. some (record w { scanners = with_list w.scanners backend [] });
  }

  length-tables :
      (backend : Loaded)
      → length (tables backend).usb_device_descriptions
        ≡ length (tables backend).supported_usb_devices
  length-tables on_plustek = refl
  length-tables on_plustek_umax = refl
  length-tables on_hp3500 = refl
  length-tables on_mustek = refl
  length-tables on_snapscan = refl
  length-tables on_gt68xx = refl

  -- The scanner is new, of one of the backends.
  abbrev IsFresh : (Loaded → CString) → MetaScanner (World D) → Type 0
  IsFresh names ms =
      (backend : Loaded) × (ms.meta_info ≡ some (module_of (names backend) backend))
      × IsNew (tables backend) ms.scanner

  rescan_world-IsNew :
      (backend : Loaded) (w : World D)
      → (w' : World D) × (rescan_world backend w ≡ some w')
        × All (IsNew (tables backend)) (w'.scanners backend)
  rescan_world-IsNew backend w =
      let (devices, e, _, _) = libusb_rescan-IsAttached w.busses [] in
      let (new, e', _, all) =
        scanbtnd_rescan-newest_first (tables backend) (length-tables backend)
          (map as_usb_device devices) (w.scanners backend) in
      let same : (number backend == number backend) ≡ true =
        (==_iff (number backend) (number backend)).1 refl in
      (record w { scanners = with_list w.scanners backend new }, rw (e, e') refl, rw same all)

  tagged-IsFresh :
      (names : Loaded → CString) (backend : Loaded) (n : ℕ) (list : List Scanner)
      → All (IsNew (tables backend)) list
      → All (IsFresh names) (newest_tagged (module_of (names backend) backend) (take n list))
  tagged-IsFresh names backend zero list h = tt
  tagged-IsFresh names backend (suc n) [] h = tt
  tagged-IsFresh names backend (suc n) (s ∷ list) (new, h) =
      All-append (IsFresh names) (newest_tagged (module_of (names backend) backend) (take n list))
        (record { scanner = s; meta_info = some (module_of (names backend) backend) } ∷ [])
        (tagged-IsFresh names backend n list h) ((backend, refl, new), tt)

  list_scanners-IsFresh :
      (names : Loaded → CString) (backends : List Loaded) (w : World D)
      → (scanners : List (MetaScanner (World D))) × (w' : World D) × (list_scanners
            (map (λ b. module_of (names b) b) backends)
            w
          ≡ some (scanners, w'))
        × All (IsFresh names) scanners
  list_scanners-IsFresh names [] w = ([], w, refl, tt)
  list_scanners-IsFresh names (backend ∷ backends) w =
      let (w', e, new) = rescan_world-IsNew backend w in
      let (scanners, w'', e', h) = list_scanners-IsFresh names backends w' in
      let extra =
        newest_tagged (module_of (names backend) backend) (take 16 (w'.scanners backend)) in
      (
        scanners ++ extra,
        w'',
        rw (e, e') refl,
        All-append (IsFresh names) scanners extra h
            (tagged-IsFresh names backend 16 (w'.scanners backend) new),
      )

  -- The scanner, once it is open, is asked through the meta backend and answers with one of its
  -- buttons or with 0.
  abbrev pub RepliesIn : World D → MetaScanner (World D) → Type 0
  RepliesIn w ms =
      (r : ℤ) × (w' : World D) × (scanbtnd_get_button
          (record ms { scanner = set_open true ms.scanner }) w
        ≡ some (r, w'))
      × IsReply true ms.scanner.num_buttons r

  module _ (reads : ReadsAtMost usb) (messages : UrbsAtMost urbs)
      (sized : (b : Loaded) → length (junk b) ≡ junk_length b) where
    IsFresh-RepliesIn :
        (names : Loaded → CString) (w : World D) (scanners : List (MetaScanner (World D)))
        → All (IsFresh names) scanners
        → All (RepliesIn w) scanners
    unfolding button_by
    IsFresh-RepliesIn names w [] h = tt
    IsFresh-RepliesIn names w (ms ∷ scanners) ((backend, e, new), h) =
        let (r, d, asked, reply) =
          get_button-supported usb reads urbs messages backend ms.scanner w.devices (junk backend)
            (sized backend) new in
        (
          (
            r,
            record w { devices = d },
            ap (λ o. button_by o (record ms { scanner = set_open true ms.scanner }) w) e
                ∙ rw asked refl,
            reply,
          ),
          IsFresh-RepliesIn names w scanners h,
        )

    -- A rescan through the meta backend of the backends plustek, plustek_umax, hp3500, mustek,
    -- snapscan and gt68xx, each any number of times and in any order, succeeds whatever devices are
    -- on the buses, and lists at most 16 scanners for each; any of these, once it is open, answers
    -- through the meta backend with one of its buttons, or with 0 for none, whatever bytes arrive, if
    -- a read, and a message from the device, gives no more bytes than were asked for and the
    -- uninitialised buffers have their sizes.
    pub get_button-scanbtnd_rescan :
        (names : Loaded → CString) (backends : List Loaded) (m : Meta (World D)) (w later : World D)
        → m.meta_backends ≡ map (λ b. module_of (names b) b) backends
        → (m' : Meta (World D)) × (w' : World D) × (scanbtnd_rescan m w ≡ some (m', w'))
          × (length m'.meta_scanners ≤ 16 * length m.meta_backends)
          × All (RepliesIn later) m'.meta_scanners
    get_button-scanbtnd_rescan names backends m w later same =
        let (scanners, w', e, fresh) = list_scanners-IsFresh names backends w in
        let run =
          scanbtnd_rescan-list_scanners m w
          ∙ ap (with_scanners m) (ap (λ l. list_scanners l w) same ∙ e) in
        (
          record m { meta_scanners = scanners },
          w',
          run,
          (scanbtnd_rescan-IsDispatched m w run).0,
          IsFresh-RepliesIn names later scanners fresh,
        )
