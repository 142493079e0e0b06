-- ===== src/Wrapper/PollTests.antt =====
-- scbtn_poll of src/scanbd/scanbuttond_wrapper.c for a scanner with two buttons.
use scanbd.Prelude.{ℕ, suc, ◌≡◌, refl, true, false, some, [], ◌∷◌, map, CString, lit, pos}
use scanbd.Sane.Samples.{literal, press, config}
use scanbd.Scanbuttond.Device.{Scanner}
use scanbd.Scanbuttond.Meta.{Module}
use scanbd.Wrapper.Match.{scbtn_entry}
use scanbd.Wrapper.Poll.{
  ScbtnPoller, settling, is_pressed, empty_entry, allocate_opts, scbtn_poll_start,
}
use scanbd.Wrapper.Poll.Press.{firings, rising, firings-rising}
use scanbd.Wrapper.Poll.Start.{IsStarted, scbtn_poll_start-IsStarted}

-- Each scanner reports the button that is the backend's state, and counts it up.
abbrev pub backend : Module ℕ
backend = record {
  name = lit "plustek";
  init = λ s. some s;
  rescan = λ s. some s;
  get_supported_devices = λ s. [];
  open_scanner = λ dev s. (pos 0, dev, s);
  close_scanner = λ dev s. (pos 0, dev, s);
  get_button = λ dev s. some (pos s, suc s);
  exit = λ s. some s;
}

abbrev pub two_buttons : Scanner
two_buttons = record {
  vendor = lit "Canon";
  product = lit "LIDE 20";
  device = record { vendor_id = 1193; product_id = 8717; location = lit "001:002" };
  lastbutton = 0;
  sane_device = lit "plustek:libusb:001:002";
  num_buttons = 2;
  is_open = true;
}

-- One action, for the first button, and a trigger for it, while the device settles.
abbrev pressed_thread : ScbtnPoller ℕ
pressed_thread = record {
  state = 0;
  dev = two_buttons;
  thread = record {
    num_of_options = 2;
    opts = scbtn_entry press 0 ∷ empty_entry ∷ [];
    num_of_options_with_scripts = 1;
  };
  triggered = true;
  triggered_option = some 0;
  index = 0;
  phase = settling (pos 0);
  alarm = false;
}

abbrev same_path : CString → CString
same_path script = script

-- The button 1 is held for two passes, let go, and pressed again.
firings-rising_example :
    firings (pos 1 ∷ pos 1 ∷ pos 0 ∷ pos 1 ∷ []) (scbtn_entry press 0)
    ≡ rising false (map (is_pressed 1) (pos 1 ∷ pos 1 ∷ pos 0 ∷ pos 1 ∷ []))
firings-rising_example =
    firings-rising (pos 1 ∷ pos 1 ∷ pos 0 ∷ pos 1 ∷ []) (scbtn_entry press 0) false refl refl refl

scbtn_poll_start-IsStarted_example :
    (s' : ScbtnPoller ℕ) × (scbtn_poll_start backend literal
        (lit "plustek")
        (record config { multiple_actions = false })
        (record pressed_thread { triggered = false; thread = allocate_opts 0 })
      ≡ some s')
    × IsStarted literal (lit "plustek") (record config { multiple_actions = false }) refl backend s'
scbtn_poll_start-IsStarted_example =
    scbtn_poll_start-IsStarted literal (lit "plustek") (record config { multiple_actions = false })
      refl backend (record pressed_thread { triggered = false; thread = allocate_opts 0 }) refl
