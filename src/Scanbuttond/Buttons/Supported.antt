-- ===== src/Scanbuttond/Buttons/Supported.antt =====
-- The buttons that a supported scanner answers with (src/scanbuttond/backends).
use scanbd.Prelude.{
  ℕ, ◌≤◌, ◌≡◌, refl, sym, subst, inl, inr, Bool-cases, true, Option, some, List, [], ◌∷◌, All,
  length, arith, replicate, ℤ, pos, negsuc,
}
use mathlib.Core.Option.{some-injective}
use scanbd.Scanbuttond.Device.{Scanner, Supported, UsbDevice, Backend, is_row}
use scanbd.Scanbuttond.Device.Scan.{IsNew, first_row}
use scanbd.Scanbuttond.Device.{set_open}
use scanbd.Scanbuttond.Exchange.{Usb, ReadsAtMost}
use scanbd.Scanbuttond.Tables.{plustek, plustek_umax, hp3500, mustek, snapscan, gt68xx}
use scanbd.Scanbuttond.Buttons.{
  plustek_get_button, plustek_umax_get_button, hp3500_get_button, mustek_get_button,
  snapscan_get_button,
}
use scanbd.Scanbuttond.Hp5590.{Urbs}
use scanbd.Scanbuttond.Hp5590.Ensures.{UrbsAtMost}
use scanbd.Scanbuttond.Messages.{gt68xx_get_button}
use scanbd.Scanbuttond.Messages.Answer.{gt68xx_get_button-Answers}
use scanbd.Scanbuttond.Buttons.Answer.{
  Answers, hp3500_get_button-Answers, plustek_get_button-Answers,
}
use scanbd.Scanbuttond.Buttons.Packets.{snapscan_get_button-Answers}

-- A bound on a table's numbers of buttons holds of the row that is found.
first_row-le :
    (max : ℕ) (rows : List Supported) (device : UsbDevice) {row : Supported}
    → All (λ r. max ≤ r.num_buttons) rows
    → first_row rows device ≡ some row
    → max ≤ row.num_buttons
first_row-le max [] device h e = cc
first_row-le max (r ∷ rows) device h e = elim (Bool-cases (is_row device r)) [
  | inl same ↦ subst (λ x. max ≤ x.num_buttons) (some-injective _ _ (rw same at e)) h.0
  | inr other ↦ first_row-le max rows device h.1 (rw other at e)
]

IsNew-le :
    (b : Backend) (max : ℕ) (s : Scanner)
    → All (λ r. max ≤ r.num_buttons) b.supported_usb_devices
    → IsNew b s
    → max ≤ s.num_buttons
IsNew-le b max s h (row, found, same, _, _) =
    subst (λ n. max ≤ n) (sym same) (first_row-le max b.supported_usb_devices s.device h found)

weaken :
    {D : Type 0} (m n : ℕ) (result : Option (ℤ × D))
    → m ≤ n
    → Answers true m result
    → Answers true n result
weaken m n result h (pos k, d, e, le) = (pos k, d, e, omega (arith, h, le))
weaken m n result h (negsuc k, d, e, le) = absurd le

-- The backends whose scanners are read here, with their tables, their scanbtnd_get_button, and the
-- number of bytes in the buffer that are not initialised.
pub data Loaded : Type 0 where
  on_plustek on_plustek_umax on_hp3500 on_mustek on_snapscan on_gt68xx : Loaded

abbrev pub tables : Loaded → Backend
tables on_plustek = plustek
tables on_plustek_umax = plustek_umax
tables on_hp3500 = hp3500
tables on_mustek = mustek
tables on_snapscan = snapscan
tables on_gt68xx = gt68xx

abbrev pub junk_length : Loaded → ℕ
junk_length on_mustek = 7
junk_length on_snapscan = 14
junk_length _ = 0

abbrev pub get_button :
    {D : Type 0} → Loaded → Usb D → Urbs D → List ℕ → Scanner → D → Option (ℤ × D)
get_button on_plustek usb urbs junk = plustek_get_button usb
get_button on_plustek_umax usb urbs junk = plustek_umax_get_button usb
get_button on_hp3500 usb urbs junk = hp3500_get_button usb
get_button on_mustek usb urbs junk = mustek_get_button usb junk
get_button on_snapscan usb urbs junk = snapscan_get_button usb junk
get_button on_gt68xx usb urbs junk = gt68xx_get_button urbs

module _ {D : Type 0} (usb : Usb D) (reads : ReadsAtMost usb) (urbs : Urbs D)
    (messages : UrbsAtMost urbs) where
  -- A scanner that a rescan of its backend made answers once it is open with one of the buttons that
  -- the backend's table gives its device, or with 0 for none, whatever bytes arrive and whatever the
  -- buffer holds at first, if a read, and a message from the device, gives no more bytes than were asked
  -- for and the uninitialised part of the buffer has its size.
  pub get_button-supported :
      (backend : Loaded) (s : Scanner) (d : D) (junk : List ℕ)
      → length junk ≡ junk_length backend
      → IsNew (tables backend) s
      → Answers true s.num_buttons (get_button backend usb urbs junk (set_open true s) d)
  get_button-supported on_plustek s d junk n new =
      (plustek_get_button-Answers usb reads (set_open true s) d).0
  get_button-supported on_plustek_umax s d junk n new =
      (plustek_get_button-Answers usb reads (set_open true s) d).1
  get_button-supported on_hp3500 s d junk n new =
      weaken 3 s.num_buttons (hp3500_get_button usb (set_open true s) d)
        (IsNew-le hp3500 3 s (omega arith, tt) new)
        (hp3500_get_button-Answers usb reads (set_open true s) d (replicate 7 0) refl).0
  get_button-supported on_mustek s d junk n new =
      weaken 5 s.num_buttons (mustek_get_button usb junk (set_open true s) d)
        (IsNew-le mustek 5 s (omega arith, tt) new)
        (hp3500_get_button-Answers usb reads (set_open true s) d junk n).1
  get_button-supported on_snapscan s d junk n new =
      weaken 4 s.num_buttons (snapscan_get_button usb junk (set_open true s) d)
        (IsNew-le snapscan 4 s (omega arith, (omega arith, (omega arith, (omega arith, tt)))) new)
        (snapscan_get_button-Answers usb reads (set_open true s) d junk n)
  get_button-supported on_gt68xx s d junk n new =
      weaken 5 s.num_buttons (gt68xx_get_button urbs (set_open true s) d)
        (IsNew-le gt68xx 5 s (omega arith, tt) new)
        (gt68xx_get_button-Answers urbs messages (set_open true s) d)
