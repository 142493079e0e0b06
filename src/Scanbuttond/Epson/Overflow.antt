-- ===== src/Scanbuttond/Epson/Overflow.antt =====
-- How scanbtnd_get_button of src/scanbuttond/backends/epson.c uses its buffer.
use scanbd.Prelude.{
  ℕ, suc, ◌+◌, ◌-◌, ◌*◌, ◌≢◌, sym, ap, subst, ◌∙◌, take, length-take, ◌≤◌, ◌<◌, ◌≡◌, ◌⊎◌, refl, inl,
  inr, Bool-cases, leb, leb→le, ◌==◌, true, false, Option, none, some, List, [], ◌∷◌, length, arith,
  ℤ, pos, get_elem?,
}
use scanbd.Scanbuttond.Device.{Scanner}
use scanbd.Scanbuttond.Exchange.{Usb, fill, fill-length, receive, query}
use scanbd.Scanbuttond.Epson.{larger, epson_read, epson_reply, epson_get_button}

fill-overflow : (bytes buffer : List ℕ) → length buffer < length bytes → fill bytes buffer ≡ none
unfolding fill
fill-overflow [] buffer h = absurd (omega (arith, h))
fill-overflow (b ∷ bytes) [] h = refl
fill-overflow (b ∷ bytes) (c ∷ buffer) h = rw (fill-overflow bytes buffer (omega (arith, h))) refl

-- The first byte of the buffer after the read.
abbrev pub first_or : ℕ → List ℕ → ℕ
first_or c [] = c
first_or c (b ∷ bytes) = b

module _ {D : Type 0} (usb : Usb D) where
  -- The button, the flushed pipe for another length than was announced, or an access outside, for the
  -- bytes that arrive.
  abbrev IsFilled : ℕ → ℕ → List ℕ → D → Option (ℤ × D) → Type 0
  IsFilled rcv_len c bytes d result =
      ((16 < length bytes) × (result ≡ none))
      ⊎ (((length bytes ≤ 16)
            × (length bytes ≡ rcv_len)
            × (result ≡ some (pos (first_or c bytes), d)))
          ⊎ ((length bytes ≤ 16)
              × ((length bytes == rcv_len) ≡ false)
              × (result ≡ some (pos 0, usb.libusb_flush d))))

  filled :
      (bytes : List ℕ) (c : ℕ) (buffer : List ℕ)
      → length bytes ≤ suc (length buffer)
      → (buffer' : List ℕ) × (fill bytes (c ∷ buffer) ≡ some buffer')
        × (get_elem? buffer' 0 ≡ some (first_or c bytes))
  unfolding fill
  filled [] c buffer h = (c ∷ buffer, refl, refl)
  filled (b ∷ bytes) c buffer h =
      let (rest, e, _) = fill-length bytes buffer (omega (arith, h)) in (b ∷ rest, rw e refl, refl)

  epson_read-IsFilled :
      (rcv_len c : ℕ) (buffer : List ℕ) (d d' : D) (bytes : List ℕ)
      → length buffer ≡ 15
      → usb.libusb_read d (larger rcv_len 16) ≡ (bytes, d')
      → IsFilled rcv_len c bytes d' (epson_read usb rcv_len (c ∷ buffer) d)
  unfolding epson_read
  epson_read-IsFilled rcv_len c buffer d d' bytes len e =
      elim (Bool-cases (leb (length bytes) 16)) [
        | inl fits ↦
            let le = leb→le (length bytes) 16 fits in
            let (buffer', f, g) = filled bytes c buffer (omega (arith, le, len)) in
            elim (Bool-cases (length bytes == rcv_len)) [
              | inl same ↦ inr (inl (le, ground (arith, same), rw (e, f, g, same) refl))
              | inr other ↦ inr (inr (le, other, rw (e, f, g, other) refl))
            ]
        | inr over ↦
            let more : 16 < length bytes = ground (arith, over) in
            inl (more, rw (e, fill-overflow bytes (c ∷ buffer) (omega (arith, more, len))) refl)
      ]

  -- The same for a device that has the bytes `pending` to send and is asked for what was announced, but
  -- for 16 at least.
  abbrev pub IsAnswer : ℕ → ℕ → List ℕ → D → Option (ℤ × D) → Type 0
  IsAnswer rcv_len c pending d result =
      let asked = 16 + (rcv_len - 16) in
      let arrived = take asked pending in
      let d' = (usb.libusb_read d asked).1 in
      ((16 < rcv_len) × (16 < length pending) × (result ≡ none))
      ⊎ (((rcv_len ≤ 16) ⊎ (length pending ≤ 16))
          × (((length arrived ≡ rcv_len) × (result ≡ some (pos (first_or c arrived), d')))
              ⊎ ((length arrived ≢ rcv_len) × (result ≡ some (pos 0, usb.libusb_flush d')))))

  larger_asked : (n : ℕ) → larger n 16 ≡ 16 + (n - 16)
  larger_asked n = ground arith

  within :
      (rcv_len : ℕ) (pending : List ℕ)
      → length (take (16 + (rcv_len - 16)) pending) ≤ 16
      → (rcv_len ≤ 16) ⊎ (length pending ≤ 16)
  within rcv_len pending h = elim (Bool-cases (leb rcv_len 16)) [
    | inl le ↦ inl (leb→le rcv_len 16 le)
    | inr gt ↦
        let more : 16 < rcv_len = ground (arith, gt) in
        inr (omega (arith, h, more, length-take (16 + (rcv_len - 16)) pending))
  ]

  other_length : (m n : ℕ) → (m == n) ≡ false → m ≢ n
  other_length m n h q = false_here (subst (λ k. (m == k) ≡ false) (sym q) h)
    where
      false_here : (m == m) ≡ false → ⊥
      false_here e = ground (arith, e)

  IsFilled-IsAnswer :
      (rcv_len c : ℕ) (pending : List ℕ) (d : D) (result : Option (ℤ × D))
      → IsFilled rcv_len c
          (take (16 + (rcv_len - 16)) pending)
          (usb.libusb_read d (16 + (rcv_len - 16))).1
          result
      → IsAnswer rcv_len c pending d result
  IsFilled-IsAnswer rcv_len c pending d result (inl (over, e)) =
      let len = length-take (16 + (rcv_len - 16)) pending in
      inl (omega (arith, over, len), omega (arith, over, len), e)
  IsFilled-IsAnswer rcv_len c pending d result (inr (inl (fits, same, e))) =
      inr (within rcv_len pending fits, inl (same, e))
  IsFilled-IsAnswer rcv_len c pending d result (inr (inr (fits, other, e))) =
      inr (within rcv_len pending fits, inr (other_length _ _ other, e))

  -- When an open scanner takes the request and announces `high * 256 + low` bytes, the backend epson
  -- asks for that many, but for 16 if they are fewer, into its buffer of 16 bytes. It writes outside
  -- exactly when more than 16 are announced and the device has more than 16 to send; else, if as many
  -- arrive as were announced, the answer is the first of them, or the first byte of the announcement
  -- when there are none, and 0 with the pipe flushed if another number arrives. The device sends what
  -- it has, up to what is asked for.
  pub epson_get_button-IsAnswer :
      (s : Scanner) (d d1 d2 : D) (b0 b1 low high : ℕ) (pending junk : List ℕ)
      → s.is_open ≡ true
      → length junk ≡ 13
      → usb.libusb_write d (27 ∷ 33 ∷ []) ≡ (2, d1)
      → usb.libusb_read d1 4 ≡ (b0 ∷ b1 ∷ low ∷ high ∷ [], d2)
      → ((n : ℕ) → (usb.libusb_read d2 n).0 ≡ take n pending)
      → IsAnswer (high * 256 + low) b0 pending d2 (epson_get_button usb junk s d)
  unfolding epson_get_button epson_reply query receive fill
  epson_get_button-IsAnswer s d d1 d2 b0 b1 low high pending [] opened n w r sends =
      absurd (omega (arith, n))
  epson_get_button-IsAnswer s d d1 d2 b0 b1 low high pending (j ∷ junk) opened n w r sends =
      let rcv_len = high * 256 + low in
      let asked = 16 + (rcv_len - 16) in
      let arrives : usb.libusb_read d2 (larger rcv_len 16)
          ≡ (take asked pending, (usb.libusb_read d2 asked).1) =
        ap (usb.libusb_read d2) (larger_asked rcv_len)
        ∙ ap (λ bytes. (bytes, (usb.libusb_read d2 asked).1)) (sends asked) in
      rw (opened, w, r)
        (IsFilled-IsAnswer rcv_len b0 pending d2 _ (
          epson_read-IsFilled rcv_len b0 (b1 ∷ low ∷ high ∷ junk) d2 (usb.libusb_read d2 asked).1
            (take asked pending) (omega (arith, n)) arrives))
