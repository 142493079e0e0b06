-- ===== src/Scanbuttond/Libusbi/Handles.antt =====
-- The handles of libusb that src/scanbuttond/interface/libusbi.c opens and closes.
use scanbd.Prelude.{
  ℕ, suc, ◌<◌, ◌≡◌, ◌⊎◌, refl, ◌∙◌, inl, inr, Bool-cases, true, false, Option, none, some, ℤ, pos,
  negsuc, is_neg, arith,
}
use scanbd.Scanbuttond.Device.{enodev, is_zero}
use scanbd.Scanbuttond.Libusbi.{RawDevice, LibusbDevice}
use scanbd.Scanbuttond.Libusbi.Calls.{
  Libusb, ebusy, claim_error, claimed, usb_opened, libusb_open, usb_closed, released, libusb_close,
}

-- The number of handles of libusb that are open: usb_open opens one or gives NULL, usb_close closes
-- one.
pub record CountsHandles {D : Type 0} (lib : Libusb D) (open_handles : D → ℕ) : Type 0 where
  pub opens :
      (d : D) (raw : RawDevice) (h : ℕ)
      → (lib.usb_open d raw).0 ≡ some h
      → open_handles (lib.usb_open d raw).1 ≡ suc (open_handles d)
  pub fails :
      (d : D) (raw : RawDevice)
      → (lib.usb_open d raw).0 ≡ none
      → open_handles (lib.usb_open d raw).1 ≡ open_handles d
  pub claims : (d : D) (h i : ℕ) → open_handles (lib.usb_claim_interface d h i).1 ≡ open_handles d
  pub releases :
      (d : D) (h i : ℕ) → open_handles (lib.usb_release_interface d h i).1 ≡ open_handles d
  pub closes :
      (d : D) (h : ℕ)
      → 0 < open_handles d
      → suc (open_handles (lib.usb_close d h).1) ≡ open_handles d

claim_error-cases : (r : ℤ) → (claim_error r ≡ enodev) ⊎ (claim_error r ≡ ebusy)
unfolding claim_error
claim_error-cases (pos n) = inl refl
claim_error-cases (negsuc n) = ground arith

-- Success with one more open handle, which the device holds, or one of the two errors with as many.
abbrev pub IsOpening : ℕ → ℕ → ℤ → LibusbDevice → Type 0
IsOpening before after result device =
    ((result ≡ pos 0) × (after ≡ suc before) × ((h : ℕ) × (device.handle ≡ some h)))
    ⊎ (((result ≡ enodev) ⊎ (result ≡ ebusy)) × (after ≡ before))

module _ {D : Type 0} (lib : Libusb D) (open_handles : D → ℕ)
    (counts : CountsHandles lib open_handles) where
  claimed-IsOpening :
      (n : ℕ) (device : LibusbDevice) (h : ℕ) (r : ℤ) (d : D)
      → device.handle ≡ some h
      → open_handles d ≡ suc n
      → IsOpening n
          (open_handles (claimed lib device h (r, d)).2)
          (claimed lib device h (r, d)).0
          (claimed lib device h (r, d)).1
  unfolding claimed
  claimed-IsOpening n device h r d held e = elim (Bool-cases (is_zero r)) [
    | inl ok ↦ rw ok (inl (refl, e, (h, held)))
    | inr bad ↦
        rw bad (inr (claim_error-cases r, omega (arith, counts.closes d h (omega (arith, e)), e)))
  ]

  open_with :
      (device : LibusbDevice) (d : D) (o : Option ℕ)
      → (lib.usb_open d device.device).0 ≡ o
      → IsOpening
          (open_handles d)
          (open_handles (libusb_open lib device d).2)
          (libusb_open lib device d).0
          (libusb_open lib device d).1
  unfolding usb_opened
  open_with device d none e = rw e (inr (inl refl, counts.fails d device.device e))
  open_with device d (some h) e = rw e (
      claimed-IsOpening (open_handles d) (record device { handle = some h }) h
        (lib.usb_claim_interface (lib.usb_open d device.device).1 h device.interface).0
        (lib.usb_claim_interface (lib.usb_open d device.device).1 h device.interface).1 refl
        (counts.claims (lib.usb_open d device.device).1 h device.interface
          ∙ counts.opens d device.device h e))

  -- libusb_open returns 0 with one more open handle of libusb, which the device holds, or it returns
  -- -ENODEV or -EBUSY with as many open handles as before, also when the interface cannot be
  -- claimed, if usb_open opens one handle or gives NULL and usb_close closes one.
  pub libusb_open-IsOpening :
      (device : LibusbDevice) (d : D)
      → IsOpening
          (open_handles d)
          (open_handles (libusb_open lib device d).2)
          (libusb_open lib device d).0
          (libusb_open lib device d).1
  libusb_open-IsOpening device d = open_with device d (lib.usb_open d device.device).0 refl

  usb_closed-state : (r : ℤ) (d : D) → (usb_closed (r, d)).1 ≡ d
  unfolding usb_closed
  usb_closed-state r d = elim (Bool-cases (is_neg r)) [
    | inl bad ↦ rw bad refl
    | inr ok ↦ rw ok refl
  ]

  -- libusb_close of a device that is open gives on the error of a failing release, with as many open
  -- handles as before, or there is one open handle less, if usb_close closes one and at least one is
  -- open.
  pub libusb_close-handles :
      (device : LibusbDevice) (h : ℕ) (d : D)
      → device.handle ≡ some h
      → 0 < open_handles d
      → (r : ℤ) × (d' : D) × (libusb_close lib device d ≡ some (r, d'))
        × (((r ≡ (lib.usb_release_interface d h device.interface).0)
              × (is_neg r ≡ true)
              × (open_handles d' ≡ open_handles d))
            ⊎ ((is_neg (lib.usb_release_interface d h device.interface).0 ≡ false)
                × (suc (open_handles d') ≡ open_handles d)))
  unfolding libusb_close released
  libusb_close-handles device h d held p =
      let r = (lib.usb_release_interface d h device.interface).0 in
      let d' = (lib.usb_release_interface d h device.interface).1 in
      let same = counts.releases d h device.interface in
      elim (Bool-cases (is_neg r)) [
        | inl bad ↦ (r, d', rw (held, bad) refl, inl (refl, bad, same))
        | inr ok ↦
            let left = counts.closes d' h (omega (arith, same, p)) in
            let end = usb_closed-state (lib.usb_close d' h).0 (lib.usb_close d' h).1 in
            (
              (usb_closed (lib.usb_close d' h)).0,
              (usb_closed (lib.usb_close d' h)).1,
              rw (held, ok) refl,
              inr (ok, rw end (left ∙ same)),
            )
      ]
