-- ===== src/Scanbuttond/Buttons/Packets.antt =====
-- What the backends with longer answers, snapscan.c and gt68xx.c in src/scanbuttond/backends,
-- answer.
use scanbd.Prelude.{
  ℕ, ◌≤◌, ◌≡◌, refl, ◌∙◌, ◌==◌, ◌&&◌, if◌then◌else◌, inl, inr, Bool-cases, Bool, true, false,
  Option, none, some, List, [], ◌∷◌, length, arith, get_elem?-lt, pos,
}
use scanbd.Scanbuttond.Device.{Scanner, einval}
use scanbd.Scanbuttond.Exchange.{Usb, Fits, ReadsAtMost}
use scanbd.Scanbuttond.Buttons.{
  snapscan_button, gt68xx_button, snapscan_end, snapscan_status, snapscan_reply,
  snapscan_get_button, gt68xx_answer,
}
use scanbd.Scanbuttond.Buttons.Bound.{snapscan_button-le, gt68xx_button-le}
use scanbd.Scanbuttond.Buttons.Answer.{Answers, expect-Fits}

snapscan_end-Answers :
    {D : Type 0} (button : ℕ) (reply : Option (List ℕ)) (d : D)
    → button ≤ 4
    → Answers true 4 (snapscan_end button reply d)
unfolding snapscan_end
snapscan_end-Answers button none d h = (pos 0, d, refl, omega arith)
snapscan_end-Answers button (some buffer) d h = (pos button, d, refl, h)

module _ {D : Type 0} (usb : Usb D) (reads : ReadsAtMost usb) where
  snapscan_status-Answers :
      (reply : Option (List ℕ)) (d : D)
      → Fits 20 reply
      → Answers true 4 (snapscan_status usb reply d)
  unfolding snapscan_status
  snapscan_status-Answers none d f = (pos 0, d, refl, omega arith)
  snapscan_status-Answers (some buffer) d f =
      let len : length buffer ≡ 20 = f in
      let (sense, e) = get_elem?-lt buffer 2 (omega (arith, len)) in
      let (byte, e') = get_elem?-lt buffer 18 (omega (arith, len)) in
      let (reply, d', x, _) =
        expect-Fits usb reads 8 251 buffer d (omega (arith, len)) (omega (arith, len)) in
      let (r, d'', x', k) =
        snapscan_end-Answers (snapscan_button sense byte) reply d'
          (snapscan_button-le sense byte) in
      (r, d'', rw (e, e', x, x') refl, k)

  keeps_room : (m : ℕ) → m ≡ 20 → (o : Option (List ℕ)) → Fits m o → Fits 20 o
  keeps_room m e none g = tt
  keeps_room m e (some b) g = g ∙ e

  snapscan_reply-Answers :
      (reply : Option (List ℕ)) (d : D)
      → Fits 20 reply
      → Answers true 4 (snapscan_reply usb reply d)
  unfolding snapscan_reply
  snapscan_reply-Answers none d f = (pos 0, d, refl, omega arith)
  snapscan_reply-Answers (some buffer) d f =
      let len : length buffer ≡ 20 = f in
      let (reply, d', x, g) =
        expect-Fits usb reads 20 240 buffer d (omega (arith, len)) (omega (arith, len)) in
      let (r, d'', x', k) =
        snapscan_status-Answers reply d' (keeps_room (length buffer) len reply g) in
      (r, d'', rw (x, x') refl, k)

  snapscan_open :
      (s : Scanner) (d : D) (junk : List ℕ) (opened : Bool)
      → s.is_open ≡ opened
      → length junk ≡ 14
      → Answers opened 4 (snapscan_get_button usb junk s d)
  unfolding snapscan_get_button
  snapscan_open s d junk false o n = (einval, d, rw o refl, refl)
  snapscan_open s d junk true o n =
      let (sent, d') = usb.libusb_write d (3 ∷ 0 ∷ 0 ∷ 0 ∷ 20 ∷ 0 ∷ []) in
      let buffer : List ℕ = 3 ∷ 0 ∷ 0 ∷ 0 ∷ 20 ∷ 0 ∷ junk in
      let len : length buffer ≡ 20 = omega (arith, n) in
      let (reply, d'', x, g) =
        expect-Fits usb reads 8 249 buffer d' (omega (arith, len)) (omega (arith, len)) in
      let (r, d3, x', k) =
        snapscan_reply-Answers reply d'' (keeps_room (length buffer) len reply g) in
      elim (Bool-cases (sent == 6)) [
        | inl all ↦ (r, d3, rw (o, all, x, x') refl, k)
        | inr short ↦ (pos 0, usb.libusb_flush d', rw (o, short) refl, omega arith)
      ]

  -- The backend snapscan answers an open scanner with a button up to 4 or with 0, and one that
  -- is not open with an error, whatever bytes arrive and whatever the buffer holds at first; its
  -- three reads stay inside the buffer of 20 bytes, if a read gives no more bytes than were
  -- asked for. The uninitialised rest of the buffer is 14 bytes.
  pub snapscan_get_button-Answers :
      (s : Scanner) (d : D) (junk : List ℕ)
      → length junk ≡ 14
      → Answers s.is_open 4 (snapscan_get_button usb junk s d)
  snapscan_get_button-Answers s d junk n = snapscan_open s d junk s.is_open refl n

pub gt68xx_answer-Answers :
    {D : Type 0} (buffer : List ℕ) (d : D)
    → 3 ≤ length buffer
    → Answers true 5 (gt68xx_answer buffer d)
unfolding gt68xx_answer
gt68xx_answer-Answers buffer d h =
    let (b0, e0) = get_elem?-lt buffer 0 (omega (arith, h)) in
    let (b1, e1) = get_elem?-lt buffer 1 (omega (arith, h)) in
    let (b2, e2) = get_elem?-lt buffer 2 (omega (arith, h)) in
    (
      pos (if b0 == 0 && b1 == 41 then gt68xx_button b2 else 0),
      d,
      rw (e0, e1, e2) refl,
      chosen (b0 == 0 && b1 == 41) (gt68xx_button b2) (gt68xx_button-le b2),
    )
  where
    chosen : (b : Bool) (n : ℕ) → n ≤ 5 → (if b then n else 0) ≤ 5
    chosen true n h' = h'
    chosen false n h' = omega arith
