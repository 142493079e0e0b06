-- ===== src/Scanbuttond/Buttons/Answer.antt =====
-- What scanbtnd_get_button of the backends in src/scanbuttond/backends answers.
use scanbd.Prelude.{
  ℕ, ◌≤◌, ◌<◌, ◌≡◌, refl, ◌==◌, inl, inr, Bool-cases, Bool, true, false, Option, none, some, List,
  [], ◌∷◌, length, arith, get_elem?-lt, ℤ, pos, negsuc,
}
use scanbd.Scanbuttond.Device.{Scanner, einval}
use scanbd.Scanbuttond.Exchange.{Usb, Fits, ReadsAtMost, query-Fits, receive-Fits}
use scanbd.Scanbuttond.Buttons.{
  answer, ask, plustek_button, plustek_umax_button, hp3500_button, mustek_button,
  plustek_get_button, plustek_umax_get_button, hp3500_get_button, mustek_get_button, first_is,
  expect,
}
use scanbd.Scanbuttond.Buttons.Bound.{
  plustek_button-le, plustek_umax_button-le, hp3500_button-le, mustek_button-le,
}

-- A scanner that is open answers with a button up to `max`, 0 for none; another with an error.
abbrev pub IsReply : Bool → ℕ → ℤ → Type 0
IsReply true max (pos k) = k ≤ max
IsReply true max (negsuc k) = ⊥
IsReply false max r = r ≡ einval

abbrev pub Answers : {D : Type 0} → Bool → ℕ → Option (ℤ × D) → Type 0
Answers {D} opened max result = (r : ℤ) × (d : D) × (result ≡ some (r, d)) × IsReply opened max r

answer-Answers :
    {D : Type 0} (decode : ℕ → ℕ) (max i n : ℕ) (reply : Option (List ℕ)) (d : D)
    → ((b : ℕ) → decode b ≤ max)
    → i < n
    → Fits n reply
    → Answers true max (answer decode i reply d)
unfolding answer
answer-Answers decode max i n none d le h fits = (pos 0, d, refl, omega arith)
answer-Answers decode max i n (some buffer) d le h fits =
    let len : length buffer ≡ n = fits in
    let (b, e) = get_elem?-lt buffer i (omega (arith, h, len)) in
    (pos (decode b), d, rw e refl, le b)

module _ {D : Type 0} (usb : Usb D) (reads : ReadsAtMost usb) where
  ask-Answers :
      (request : List ℕ) (n : ℕ) (buffer : List ℕ) (decode : ℕ → ℕ) (max i : ℕ) (s : Scanner)
      (d : D) (opened : Bool)
      → s.is_open ≡ opened
      → ((b : ℕ) → decode b ≤ max)
      → n ≤ length buffer
      → i < length buffer
      → Answers opened max (ask usb request n buffer decode i s d)
  unfolding ask
  ask-Answers request n buffer decode max i s d false o le fits h = (einval, d, rw o refl, refl)
  ask-Answers request n buffer decode max i s d true o le fits h =
      let (reply, d', e, f) = query-Fits usb reads request n buffer d fits in
      let (r, d'', e', k) = answer-Answers decode max i (length buffer) reply d' le h f in
      (r, d'', rw (o, e, e') refl, k)

  -- The backends plustek and plustek_umax answer an open scanner with one of its buttons, or with 0,
  -- whatever bytes arrive, and one that is not open with an error; they stay inside their buffer, if
  -- a read gives no more bytes than were asked for.
  pub plustek_get_button-Answers :
      (s : Scanner) (d : D)
      → Answers s.is_open s.num_buttons (plustek_get_button usb s d)
        × Answers s.is_open s.num_buttons (plustek_umax_get_button usb s d)
  plustek_get_button-Answers s d = (
    ask-Answers (1 ∷ 2 ∷ 0 ∷ 1 ∷ []) 1 (1 ∷ 2 ∷ 0 ∷ 1 ∷ []) (plustek_button s.num_buttons)
        s.num_buttons 0 s d s.is_open refl (plustek_button-le s.num_buttons) (omega arith)
        (omega arith),
    ask-Answers (1 ∷ 2 ∷ 0 ∷ 1 ∷ []) 1 (1 ∷ 2 ∷ 0 ∷ 1 ∷ []) (plustek_umax_button s.num_buttons)
        s.num_buttons 0 s d s.is_open refl (plustek_umax_button-le s.num_buttons) (omega arith)
        (omega arith),
  )

  -- The backend hp3500 answers an open scanner with a button up to 3, mustek with one up to 5 (0 for
  -- none), and a scanner that is not open with an error; they stay inside their buffers, if a read
  -- gives no more bytes than were asked for, whatever a buffer holds at first.
  pub hp3500_get_button-Answers :
      (s : Scanner) (d : D) (junk : List ℕ)
      → length junk ≡ 7
      → Answers s.is_open 3 (hp3500_get_button usb s d)
        × Answers s.is_open 5 (mustek_get_button usb junk s d)
  hp3500_get_button-Answers s d junk n = (
    ask-Answers (128 ∷ 208 ∷ 0 ∷ 1 ∷ []) 1 (128 ∷ 208 ∷ 0 ∷ 1 ∷ []) hp3500_button 3 0 s d s.is_open
        refl hp3500_button-le (omega arith) (omega arith),
    ask-Answers (116 ∷ []) 8 (116 ∷ junk) mustek_button 5 2 s d s.is_open refl mustek_button-le
        (omega (arith, n)) (omega (arith, n)),
  )

  first_is-Fits :
      (code n : ℕ) (reply : Option (List ℕ)) (d : D)
      → 0 < n
      → Fits n reply
      → (r : Option (List ℕ)) × (d' : D) × (first_is usb code reply d ≡ some (r, d')) × Fits n r
  unfolding first_is
  first_is-Fits code n none d h f = (none, d, refl, tt)
  first_is-Fits code n (some buffer) d h f =
      let len : length buffer ≡ n = f in
      let (first, e) = get_elem?-lt buffer 0 (omega (arith, h, len)) in
      elim (Bool-cases (first == code)) [
        | inl same ↦ (some buffer, d, rw (e, same) refl, f)
        | inr other ↦ (none, usb.libusb_flush d, rw (e, other) refl, tt)
      ]

  pub expect-Fits :
      (n code : ℕ) (buffer : List ℕ) (d : D)
      → n ≤ length buffer
      → 0 < length buffer
      → (r : Option (List ℕ)) × (d' : D) × (expect usb n code buffer d ≡ some (r, d'))
        × Fits (length buffer) r
  unfolding expect
  expect-Fits n code buffer d h p =
      let (reply, d', e, f) = receive-Fits usb reads n buffer d h in
      let (r, d'', e', f') = first_is-Fits code (length buffer) reply d' p f in
      (r, d'', rw (e, e') refl, f')
