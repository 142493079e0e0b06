-- ===== src/Scanbuttond/Hp5590/Answer.antt =====
-- What scanbtnd_get_button of src/scanbuttond/backends/hp5590.c answers.
use scanbd.Prelude.{
  ℕ, ◌+◌, ◌*◌, ◌/◌, ◌%◌, ◌==◌, ==_iff, ◌≡◌, ◌≢◌, ◌⊎◌, refl, sym, ap, ◌∙◌, inl, inr, if◌then◌else◌,
  Bool, true, false, Bool-cases, Option, none, some, List, [], ◌∷◌, arith, pos, ℤ,
}
use scanbd.Scanbuttond.Buttons.{bit, last_pressed}
use scanbd.Scanbuttond.Device.{Scanner}
use scanbd.Scanbuttond.Hp5590.{
  Urbs, control_msg_in, hp5590_verify_last_cmd, cmd_in, hp5590_button, status_button,
  hp5590_get_button,
}
use scanbd.Scanbuttond.Hp5590.Ensures.{UrbsAtMost, Ensures, Long, Ensures-control_msg_in}

-- What the bits of the state stand for, from the one that counts most on.
abbrev pub pressed_button : ℕ → ℕ
pressed_button status =
    if bit 16384 status
    then 5
    else if bit 32768 status
    then 4
    else if bit 512 status
    then 3
    else if bit 2 status
    then 2
    else if bit 4 status
    then 1
    else 0

button-pressed : (high low : ℕ) → hp5590_button high low ≡ pressed_button (high * 256 + low)
unfolding hp5590_button last_pressed
button-pressed high low =
    let status = high * 256 + low in
    chosen (bit 4 status) (bit 2 status) (bit 512 status) (bit 32768 status) (bit 16384 status)
  where
    chosen :
        (a b c d e : Bool)
        → last_pressed ((a, 1) ∷ (b, 2) ∷ (c, 3) ∷ (d, 4) ∷ (e, 5) ∷ []) 0
          ≡ (if e then 5 else if d then 4 else if c then 3 else if b then 2 else if a then 1 else 0)
    chosen a b c d e = ground arith

module _ {D : Type 0} (usb : Urbs D) where
  -- The two bytes of an answer to the command `cmd`.
  abbrev pub answer_to : ℕ → ℕ → D → Option (Option (List ℕ) × D)
  answer_to junk cmd d = control_msg_in usb junk 4 cmd 0 (junk ∷ junk ∷ []) 2 false d

  -- The device says that the last command was the one for the buttons, and that it is ready.
  abbrev pub IsConfirmed : ℕ → D → D → Type 0
  IsConfirmed junk d d' =
      (status : ℕ) × (answer_to junk 197 d ≡ some (some (32 ∷ status ∷ []), d'))
      × (status / 2 % 2 ≡ 0)

  -- It does not answer, or it says that it was another one, or that it is busy.
  abbrev pub IsUnconfirmed : ℕ → D → D → Type 0
  IsUnconfirmed junk d d' =
      (answer_to junk 197 d ≡ some (none, d'))
      ⊎ ((last_cmd status : ℕ) × (answer_to junk 197 d ≡ some (some (last_cmd ∷ status ∷ []), d'))
          × ((last_cmd ≢ 32) ⊎ (status / 2 % 2 ≢ 0)))

  -- An exchange that failed at one of its steps, after which the pipe is flushed, or two bytes of the
  -- state, and after them the last command, confirmed.
  abbrev pub IsVerified : ℕ → D → Option (ℤ × D) → Type 0
  IsVerified junk d result =
      ((d' : D) × (answer_to junk 32 d ≡ some (none, d'))
        × (result ≡ some (pos 0, usb.libusb_flush d')))
      ⊎ ((high low : ℕ) × (d' d'' : D) × (answer_to junk 32 d ≡ some (some (high ∷ low ∷ []), d'))
          × ((IsUnconfirmed junk d' d'' × (result ≡ some (pos 0, usb.libusb_flush d'')))
              ⊎ (IsConfirmed junk d' d''
                  × (result ≡ some (pos (pressed_button (high * 256 + low)), d'')))))

module _ {D : Type 0} (usb : Urbs D) (reads : UrbsAtMost usb) where
  -- The check of the last command, whatever it is answered.
  checked :
      (junk : ℕ) (d : D) (o : Option (Option (List ℕ) × D))
      → answer_to usb junk 197 d ≡ o
      → Ensures (Long 2) o
      → ((d' : D) × (hp5590_verify_last_cmd usb junk 32 d ≡ some (none, d'))
          × IsUnconfirmed usb junk d d')
        ⊎ ((d' : D) × (hp5590_verify_last_cmd usb junk 32 d ≡ some (some tt, d'))
            × IsConfirmed usb junk d d')
  unfolding hp5590_verify_last_cmd
  checked junk d none e h = absurd h
  checked junk d (some (none, d')) e h = inl (d', rw e refl, inl e)
  checked junk d (some (some [], d')) e h = absurd (omega (arith, h))
  checked junk d (some (some (a ∷ []), d')) e h = absurd (omega (arith, h))
  checked junk d (some (some (a ∷ b ∷ c ∷ l), d')) e h = absurd (omega (arith, h))
  checked junk d (some (some (last_cmd ∷ status ∷ []), d')) e h =
      elim (Bool-cases (32 == last_cmd)) [
        | inr other ↦
            let wrong : last_cmd ≢ 32 = λ same. differ last_cmd other same in
            inl (d', rw (e, other) refl, inr (last_cmd, status, e, inl wrong))
        | inl same ↦ elim (Bool-cases (status / 2 % 2 == 0)) [
          | inr busy ↦
              let wrong : status / 2 % 2 ≢ 0 = λ ready. nonzero (status / 2 % 2) busy ready in
              inl (d', rw (e, same, busy) refl, inr (last_cmd, status, e, inr wrong))
          | inl ready ↦
              let here : 32 ≡ last_cmd = (==_iff 32 last_cmd).0 same in
              inr (
                d',
                rw (e, same, ready) refl,
                (
                  status,
                  e ∙ ap (λ c. some (some (c ∷ status ∷ []), d')) (sym here),
                  (==_iff (status / 2 % 2) 0).0 ready,
                ),
              )
        ]
      ]
    where
      differ : (n : ℕ) → (32 == n) ≡ false → n ≡ 32 → ⊥
      differ n h q = ground (arith, h, q)

      nonzero : (n : ℕ) → (n == 0) ≡ false → n ≡ 0 → ⊥
      nonzero n h q = ground (arith, h, q)

  asked :
      (junk : ℕ) (s : Scanner) (d : D) (o : Option (Option (List ℕ) × D))
      → s.is_open ≡ true
      → answer_to usb junk 32 d ≡ o
      → Ensures (Long 2) o
      → IsVerified usb junk d (hp5590_get_button usb junk s d)
  unfolding hp5590_get_button status_button cmd_in
  asked junk s d none opened e h = absurd h
  asked junk s d (some (none, d')) opened e h = inl (d', e, rw (opened, e) refl)
  asked junk s d (some (some (high ∷ low ∷ []), d')) opened e h =
      elim (checked junk d' (answer_to usb junk 197 d') refl (
        Ensures-control_msg_in usb reads junk 4 197 0 (junk ∷ junk ∷ []) 2 false d'
          (omega arith))) [
            | inl (d'', v, failed) ↦
                inr (high, low, d', d'', e, inl (failed, rw (opened, e, v) refl))
            | inr (d'', v, confirmed) ↦ inr (
              high,
              low,
              d',
              d'',
              e,
              inr (
                confirmed,
                rw (opened, e, v) (ap (λ b. some (pos b, d'')) (button-pressed high low)),
              ),
            )
          ]
  asked junk s d (some (some [], d')) opened e h = absurd (omega (arith, h))
  asked junk s d (some (some (a ∷ []), d')) opened e h = absurd (omega (arith, h))
  asked junk s d (some (some (a ∷ b ∷ c ∷ l), d')) opened e h = absurd (omega (arith, h))

  -- The backend hp5590 asks an open scanner without an access outside a buffer, whatever bytes arrive
  -- and whatever the buffers hold at first. The answer is 0, with the pipe flushed, if the exchange
  -- for the state fails, and if after it the one for the last command fails, or names another command
  -- than that for the buttons, or has the bit that says busy; else it is the button of the state, by
  -- the bits in their order of precedence, or 0. The condition is that a message from the device
  -- brings no more bytes than were asked for.
  pub hp5590_get_button-IsVerified :
      (junk : ℕ) (s : Scanner) (d : D)
      → s.is_open ≡ true
      → IsVerified usb junk d (hp5590_get_button usb junk s d)
  hp5590_get_button-IsVerified junk s d opened =
      asked junk s d (answer_to usb junk 32 d) opened refl
        (Ensures-control_msg_in usb reads junk 4 32 0 (junk ∷ junk ∷ []) 2 false d (omega arith))
