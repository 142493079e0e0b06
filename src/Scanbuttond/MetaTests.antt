-- ===== src/Scanbuttond/MetaTests.antt =====
-- The backends meta.c, hp5590.c, epson.c, niash.c, artec_eplus48u.c, hp3900.c and genesys.c of
-- src/scanbuttond/backends on small inputs.
use scanbd.Prelude.{
  ℕ, suc, ◌+◌, ◌-◌, ◌≤◌, ◌≡◌, refl, true, false, Bool, if◌then◌else◌, none, some, List, [], ◌∷◌,
  ◌++◌, CString, lit, str_eq, length, map, All, replicate, take, pos, arith,
}
use mathlib.Core.Option.{some-injective}
use scanbd.Prelude.{subst}
use scanbd.Scanbuttond.Device.{Scanner, Bus}
use scanbd.Scanbuttond.Buttons.Supported.{
  Loaded, on_plustek, on_mustek, junk_length, on_plustek_umax, on_hp3500, on_snapscan, on_gt68xx,
}
use scanbd.Scanbuttond.Control.{Control}
use scanbd.Scanbuttond.Libusbi.Calls.{
  Users, read_result, write_result, byte_count, control_in_result, control_out_result,
}
use scanbd.Scanbuttond.Exchange.{Usb, fill}
use scanbd.Scanbuttond.Buttons.{last_pressed}
use scanbd.Scanbuttond.Libusbi.Interface.{usb_of, usb_of-ReadsAtMost, urbs_of, urbs_of-UrbsAtMost}
use scanbd.Scanbuttond.UsbTests.{
  Line, busses, attached, lib, line, lib-BulkReadsAtMost, length-take-le,
}
use scanbd.Scanbuttond.Meta.{
  Module, Meta, Loader, scanbtnd_init, scanbtnd_exit, scanbtnd_rescan, rescan_backends, attach_from,
}
use scanbd.Scanbuttond.Meta.Lifetime.{IsCounted, scanbtnd_exit-scanbtnd_init}
use scanbd.Scanbuttond.Meta.Loading.{World, module_of, RepliesIn, get_button-scanbtnd_rescan}
use scanbd.Scanbuttond.Hp5590.{
  Urbs, hp5590_get_button, status_button, cmd_in, control_msg_in, hp5590_verify_last_cmd, send,
  receive, hp5590_get_ack, read_packets, hp5590_button, skip,
}
use scanbd.Scanbuttond.Hp5590.Ensures.{UrbsAtMost}
use scanbd.Scanbuttond.Hp5590.Answer.{IsVerified, hp5590_get_button-IsVerified}
use scanbd.Scanbuttond.Hp5590.Transfer.{Serves, read_packets-take}
use scanbd.Scanbuttond.Epson.{epson_get_button}
use scanbd.Scanbuttond.Epson.Overflow.{IsAnswer, epson_get_button-IsAnswer}

-- A backend that counts the running ones, and a loader that finds it under one name.
abbrev counter : Module ℕ
counter = record {
  name = lit "counter";
  init = λ s. some (suc s);
  rescan = λ s. some s;
  get_supported_devices = λ s. [];
  open_scanner = λ scanner s. (pos 0, scanner, s);
  close_scanner = λ scanner s. (pos 0, scanner, s);
  get_button = λ scanner s. some (pos 0, s);
  exit = λ s. some (s - 1);
}

abbrev load : Loader ℕ
load name = if str_eq name (lit "counter") then some counter else none

counter-IsCounted : IsCounted (λ (s : ℕ). s) counter
counter-IsCounted = record {
  starts = λ s. (suc s, refl, refl);
  ends = λ s. (s - 1, refl, λ p. omega (arith, p));
}

loaded-IsCounted :
    (name : CString) (backend : Module ℕ)
    → load name ≡ some backend
    → IsCounted (λ (s : ℕ). s) backend
loaded-IsCounted name backend e = chosen (str_eq name (lit "counter")) e
  where
    chosen :
        (b : Bool)
        → (if b then some counter else none) ≡ some backend
        → IsCounted (λ (s : ℕ). s) backend
    chosen true h = subst (IsCounted (λ (s : ℕ). s)) (some-injective _ _ h) counter-IsCounted
    chosen false h = cc

abbrev no_users : Users
no_users = record { invocation_count = pos 0; initialised = 0 }

-- "counter\n", an empty line and the name of a library that is not there.
abbrev config : List CString
config = (lit "counter" ++ 10 ∷ []) ∷ (10 ∷ []) ∷ lit "other" ∷ []

scanbtnd_exit-scanbtnd_init_example :
    (m m' : Meta ℕ) × (s' s'' : ℕ) × (scanbtnd_init load (some config) no_users 0
      ≡ some (pos 0, m, s'))
    × (s' ≡ 0 + length m.meta_backends)
    × (scanbtnd_exit m s' ≡ some (m', s''))
    × (s'' ≡ 0)
    × (m'.users.invocation_count ≡ pos 0)
scanbtnd_exit-scanbtnd_init_example =
    scanbtnd_exit-scanbtnd_init load (λ s. s) loaded-IsCounted config no_users 0

abbrev bus : Bus Line
bus = record {
  changed_device_count = λ d. 0;
  libusb_open = λ d device. (pos 0, d);
  libusb_close = λ d device. (pos 0, d);
}

abbrev junk : Loaded → List ℕ
junk backend = replicate (junk_length backend) 0

junk_sized : (b : Loaded) → length (junk b) ≡ junk_length b
junk_sized on_plustek = refl
junk_sized on_plustek_umax = refl
junk_sized on_hp3500 = refl
junk_sized on_mustek = refl
junk_sized on_snapscan = refl
junk_sized on_gt68xx = refl

abbrev usb : Usb Line
usb = usb_of lib attached 7 (λ d. d)

abbrev urbs : Urbs Line
urbs = urbs_of lib attached 7 (λ d. d)

urbs-UrbsAtMost : UrbsAtMost urbs
urbs-UrbsAtMost =
    urbs_of-UrbsAtMost lib attached 7 (λ d. d)
      (λ d setup n bytes e. length-take-le n d.bytes bytes e)

abbrev name_of : Loaded → CString
name_of backend = lit "backend"

abbrev backends : List (Module (World Line))
backends = map (λ b. module_of bus usb urbs junk (name_of b) b) (on_plustek ∷ on_mustek ∷ [])

abbrev started : Meta (World Line)
started = record { meta_scanners = []; meta_backends = backends; users = no_users }

abbrev world : World Line
world = record { busses = busses; scanners = λ b. []; devices = line }

get_button-scanbtnd_rescan_example :
    (m' : Meta (World Line)) × (w' : World Line) × (scanbtnd_rescan started world ≡ some (m', w'))
    × (length m'.meta_scanners ≤ 32)
    × All (RepliesIn bus usb urbs junk world) m'.meta_scanners
get_button-scanbtnd_rescan_example =
    get_button-scanbtnd_rescan bus usb urbs junk
      (usb_of-ReadsAtMost lib attached 7 (λ d. d) lib-BulkReadsAtMost) urbs-UrbsAtMost junk_sized
      name_of (on_plustek ∷ on_mustek ∷ []) started world world refl

abbrev counters : Meta ℕ
counters = record { meta_scanners = []; meta_backends = counter ∷ []; users = no_users }

counters_rescanned : scanbtnd_rescan counters 3 ≡ some (counters, 3)
unfolding scanbtnd_rescan rescan_backends attach_from
counters_rescanned = refl

abbrev scanner : Scanner
scanner = record {
  vendor = lit "Epson";
  product = lit "Perfection 1650";
  device = record { vendor_id = 1208; product_id = 272; location = lit "001:002" };
  lastbutton = 0;
  sane_device = lit "epson:libusb:001:002";
  num_buttons = 4;
  is_open = true;
}

abbrev with_bytes : List ℕ → Line
with_bytes bytes = record { handles = 1; bytes = bytes }

-- Two acknowledgements round the two bytes of the state, and the same for the last command.
abbrev scan_pressed : Line
scan_pressed = with_bytes (1 ∷ 0 ∷ 4 ∷ 1 ∷ 1 ∷ 32 ∷ 0 ∷ 1 ∷ [])

scan_button : hp5590_get_button urbs 0 scanner scan_pressed ≡ some (pos 1, with_bytes [])
unfolding hp5590_get_button status_button cmd_in control_msg_in hp5590_verify_last_cmd send receive
    hp5590_get_ack read_packets hp5590_button last_pressed fill control_in_result control_out_result
    byte_count
scan_button = refl

hp5590_get_button-IsVerified_example :
    IsVerified urbs 0 scan_pressed (hp5590_get_button urbs 0 scanner scan_pressed)
hp5590_get_button-IsVerified_example =
    hp5590_get_button-IsVerified urbs urbs-UrbsAtMost 0 scanner scan_pressed refl

urbs-Serves : Serves urbs Line.bytes
unfolding control_in_result
urbs-Serves d request n = (refl, refl)

read_packets-take_example :
    (d' : Line) × (read_packets urbs 20 false 20 (replicate 24 0) line
      ≡ some (some (replicate 20 7 ++ replicate 4 0), d'))
    × (d'.bytes ≡ [])
read_packets-take_example =
    read_packets-take urbs Line.bytes urbs-Serves 20 false 20 (replicate 24 0) line (omega arith)
      (omega arith) (omega arith)

-- 17 bytes are announced, of the 20 that the device has to send.
abbrev announced : Line
announced = with_bytes (2 ∷ 0 ∷ 17 ∷ 0 ∷ replicate 20 1)

epson_get_button-IsAnswer_example :
    IsAnswer usb 17 2
      (replicate 20 1)
      (with_bytes (replicate 20 1))
      (epson_get_button usb (replicate 13 0) scanner announced)
unfolding read_result write_result byte_count
epson_get_button-IsAnswer_example =
    epson_get_button-IsAnswer usb scanner announced announced (with_bytes (replicate 20 1)) 2 0 17 0
      (replicate 20 1) (replicate 13 0) refl refl refl refl (λ n. refl)

abbrev control : Control Line
control = record {
  control_out = λ l bytes. (length bytes, l);
  control_in = λ l n. (take n l.bytes, with_bytes (skip n l.bytes));
  libusb_flush = λ l. l;
}
