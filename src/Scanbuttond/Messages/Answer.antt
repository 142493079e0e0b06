-- ===== src/Scanbuttond/Messages/Answer.antt =====
-- What the backends of src/scanbuttond/backends answer that talk by control messages.
use scanbd.Prelude.{
  ℕ, ◌≤◌, ◌≡◌, refl, ◌==◌, inl, inr, Bool-cases, Bool, true, false, List, [], ◌∷◌, length, arith,
  get_elem?-lt, pos,
}
use scanbd.Scanbuttond.Device.{Scanner, einval}
use scanbd.Scanbuttond.Exchange.{fill-length}
use scanbd.Scanbuttond.Buttons.Answer.{Answers}
use scanbd.Scanbuttond.Control.{Control, hp3900_button, hp3900_get_button, genesys_get_button}
use scanbd.Scanbuttond.Control.Pressed.{hp3900_button-IsLowest, genesys_button-combinations}
use scanbd.Scanbuttond.Hp5590.{Urbs}
use scanbd.Scanbuttond.Hp5590.Ensures.{UrbsAtMost}
use scanbd.Scanbuttond.Messages.{
  niash_button, artec_button, request_packet, niash_write, niash_get_button, artec_get_button,
  gt68xx_get_button,
}
use scanbd.Scanbuttond.Buttons.{gt68xx_request}
use scanbd.Scanbuttond.Buttons.Packets.{gt68xx_answer-Answers}

niash_button-le : (b : ℕ) → niash_button b ≤ 4
unfolding niash_button
niash_button-le b = ground arith

artec_button-le : (b : ℕ) → artec_button b ≤ 4
unfolding artec_button
artec_button-le b = ground arith

hp3900_button-le : (n b : ℕ) → hp3900_button n b ≤ n
hp3900_button-le n b = elim (hp3900_button-IsLowest n b) [
  | inl (e, _) ↦ omega (arith, e)
  | inr (i, e, lt, _, _) ↦ omega (arith, e, lt)
]

module _ {D : Type 0} (usb : Urbs D) (reads : UrbsAtMost usb) where
  niash_open :
      (rest : List ℕ) (s : Scanner) (d : D) (opened : Bool)
      → s.is_open ≡ opened
      → Answers opened 4 (niash_get_button usb rest s d)
  unfolding niash_get_button
  niash_open rest s d false o = (einval, d, rw o refl, refl)
  niash_open rest s d true o =
      let d3 = niash_write usb 135 52 (niash_write usb 131 46 (niash_write usb 135 20 d)) in
      let (bytes, d4) = usb.urb_in d3 (record { request = 12; value = 132; index = 0 }) 1 in
      let small = reads d3 (record { request = 12; value = 132; index = 0 }) 1 in
      let (buffer, e, len) = fill-length bytes (255 ∷ rest) (omega (arith, small)) in
      let (byte, e') = get_elem?-lt buffer 0 (omega (arith, len)) in
      (pos (niash_button byte), niash_write usb 135 20 d4, rw (o, e, e') refl, niash_button-le byte)

  artec_open :
      (junk : List ℕ) (s : Scanner) (d : D) (opened : Bool)
      → length junk ≡ 64
      → s.is_open ≡ opened
      → Answers opened 4 (artec_get_button usb junk s d)
  unfolding artec_get_button
  artec_open junk s d false n o = (einval, d, rw o refl, refl)
  artec_open junk s d true n o =
      let (sent, d') =
        usb.urb_out d (record { request = 1; value = 8210; index = 16192 }) request_packet in
      let (bytes, d'') = usb.urb_in d' (record { request = 1; value = 8211; index = 16128 }) 64 in
      let small = reads d' (record { request = 1; value = 8211; index = 16128 }) 64 in
      let (buffer, e, len) = fill-length bytes junk (omega (arith, small, n)) in
      let (byte, e') = get_elem?-lt buffer 2 (omega (arith, len, n)) in
      (pos (artec_button byte), d'', rw (o, e, e') refl, artec_button-le byte)

  -- The backends niash and artec_eplus48u answer an open scanner with a button up to 4 or with 0,
  -- whatever bytes arrive and also when a message fails, and one that is not open with an error; they
  -- stay inside their buffers, if a message from the device brings no more bytes than were asked for
  -- and the buffer of artec_eplus48u has 64 bytes.
  pub niash_get_button-Answers :
      (s : Scanner) (d : D) (rest junk : List ℕ)
      → length junk ≡ 64
      → Answers s.is_open 4 (niash_get_button usb rest s d)
        × Answers s.is_open 4 (artec_get_button usb junk s d)
  niash_get_button-Answers s d rest junk n =
      (niash_open rest s d s.is_open refl, artec_open junk s d s.is_open n refl)

  gt68xx_length : length (gt68xx_request 255) ≡ 255
  gt68xx_length = refl

  gt68xx_open :
      (s : Scanner) (d : D) (opened : Bool)
      → s.is_open ≡ opened
      → Answers opened 5 (gt68xx_get_button usb s d)
  unfolding gt68xx_get_button
  gt68xx_open s d false o = (einval, d, rw o refl, refl)
  gt68xx_open s d true o =
      let (sent, d') =
        usb.urb_out d (record { request = 4; value = 8208; index = 16192 }) (gt68xx_request 64) in
      let (bytes, d'') = usb.urb_in d' (record { request = 4; value = 8209; index = 16128 }) 64 in
      let small = reads d' (record { request = 4; value = 8209; index = 16128 }) 64 in
      let (buffer, e, len) =
        fill-length bytes (gt68xx_request 255) (omega (arith, small, gt68xx_length)) in
      let (r, d3, e', k) = gt68xx_answer-Answers buffer d'' (omega (arith, len, gt68xx_length)) in
      (r, d3, rw (o, e, e') refl, k)

  -- The backend gt68xx answers an open scanner with a button up to 5 or with 0, and one that is not
  -- open with an error, whatever bytes arrive and also when a message fails, and stays inside its
  -- buffer of 255 bytes, if a message from the device brings no more bytes than were asked for.
  pub gt68xx_get_button-Answers :
      (s : Scanner) (d : D) → Answers s.is_open 5 (gt68xx_get_button usb s d)
  gt68xx_get_button-Answers s d = gt68xx_open s d s.is_open refl

module _ {D : Type 0} (usb : Control D) where
  hp3900_open :
      (s : Scanner) (d : D) (opened : Bool)
      → s.is_open ≡ opened
      → Answers opened s.num_buttons (hp3900_get_button usb s d)
  unfolding hp3900_get_button
  hp3900_open s d false o = (einval, d, rw o refl, refl)
  hp3900_open s d true o =
      let (bytes, d') = usb.control_in d 2 in
      elim (Bool-cases (length bytes == 2)) [
        | inl all ↦
            let two : length bytes ≡ 2 = ground (arith, all) in
            let (b, e) = get_elem?-lt bytes 0 (omega (arith, two)) in
            (
              pos (hp3900_button s.num_buttons b),
              d',
              rw (o, all, e) refl,
              hp3900_button-le s.num_buttons b,
            )
        | inr short ↦ (pos 0, usb.libusb_flush d', rw (o, short) refl, omega arith)
      ]

  genesys_open :
      (s : Scanner) (d : D) (opened : Bool)
      → s.is_open ≡ opened
      → Answers opened 15 (genesys_get_button usb s d)
  unfolding genesys_get_button
  genesys_open s d false o = (einval, d, rw o refl, refl)
  genesys_open s d true o =
      let (sent, d') = usb.control_out d (109 ∷ []) in
      let (bytes, d'') = usb.control_in d' 1 in
      elim (Bool-cases (sent == 1)) [
        | inr bad ↦ (pos 0, d', rw (o, bad) refl, omega arith)
        | inl ok ↦ elim (Bool-cases (length bytes == 1)) [
          | inr short ↦ (pos 0, d'', rw (o, ok, short) refl, omega arith)
          | inl all ↦
              let one : length bytes ≡ 1 = ground (arith, all) in
              let (b, e) = get_elem?-lt bytes 0 (omega (arith, one)) in
              let (k, e', le, _) = genesys_button-combinations b b refl in
              (pos k, d'', rw (o, ok, all, e, e') refl, le)
        ]
      ]

  -- The backend hp3900 answers an open scanner with one of its buttons, genesys with one up to 15, or
  -- with 0, whatever bytes arrive and also when a message fails, and one that is not open with an
  -- error, without an access outside a buffer or the table of the buttons.
  pub hp3900_get_button-Answers :
      (s : Scanner) (d : D)
      → Answers s.is_open s.num_buttons (hp3900_get_button usb s d)
        × Answers s.is_open 15 (genesys_get_button usb s d)
  hp3900_get_button-Answers s d = (hp3900_open s d s.is_open refl, genesys_open s d s.is_open refl)
