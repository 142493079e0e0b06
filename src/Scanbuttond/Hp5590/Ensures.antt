-- ===== src/Scanbuttond/Hp5590/Ensures.antt =====
-- The accesses to buffers in the exchange of src/scanbuttond/backends/hp5590.c.
use scanbd.Prelude.{
  ℕ, zero, suc, ◌-◌, ◌≤◌, ◌≡◌, refl, inl, inr, ◌%◌, ◌/◌, if◌then◌else◌, Bool-cases, Bool, true,
  false, Option, none, some, List, [], ◌∷◌, length, length-append, length-take, get_elem?-lt, take,
  arith, ltb, ◌==◌,
}
use scanbd.Scanbuttond.Exchange.{fill-length}
use scanbd.Scanbuttond.Buttons.{last_pressed}
use scanbd.Scanbuttond.Libusbi.Calls.{Setup}
use scanbd.Scanbuttond.Hp5590.{
  Urbs, M, then_run, pure, guard, skip, packet_size, send, receive, hp5590_get_ack, read_packets,
  control_msg_in, hp5590_verify_last_cmd, cmd_in, hp5590_button,
}

-- A message from the device brings no more bytes than were asked for.
abbrev pub UrbsAtMost : {D : Type 0} → Urbs D → Type 0
UrbsAtMost {D} usb = (d : D) (setup : Setup) (n : ℕ) → length (usb.urb_in d setup n).0 ≤ n

-- The step stays inside of its buffers, and its result, if it succeeds, meets `P`.
abbrev pub Ensures : {D A : Type 0} → (A → Type 0) → Option (Option A × D) → Type 0
Ensures P none = ⊥
Ensures P (some (none, d)) = Unit {0}
Ensures P (some (some a, d)) = P a

Ensures-bind :
    {D A B : Type 0} (P : A → Type 0) (Q : B → Type 0) (r : Option (Option A × D)) (f : A → M D B)
    → Ensures P r
    → ((a : A) (d : D) → P a → Ensures Q (f a d))
    → Ensures Q (then_run r f)
Ensures-bind P Q none f h k = h
Ensures-bind P Q (some (none, d)) f h k = tt
Ensures-bind P Q (some (some a, d)) f h k = k a d h

Ensures-guard : {D : Type 0} (b : Bool) (d : D) → Ensures (λ u. Unit {0}) (guard b d)
Ensures-guard true d = tt
Ensures-guard false d = tt

-- Any result.
abbrev pub Any : {A : Type 0} → A → Type 0
Any a = Unit {0}

abbrev pub Long : ℕ → List ℕ → Type 0
Long n bytes = length bytes ≡ n

pub length-skip : (n : ℕ) (bytes : List ℕ) → length (skip n bytes) ≡ length bytes - n
length-skip zero bytes = omega arith
length-skip (suc n) [] = omega arith
length-skip (suc n) (b ∷ bytes) = omega (arith, length-skip n bytes)

module _ {D : Type 0} (usb : Urbs D) (reads : UrbsAtMost usb) where
  Ensures-send : (setup : Setup) (bytes : List ℕ) (d : D) → Ensures Any (send usb setup bytes d)
  unfolding send
  Ensures-send setup bytes d =
      Ensures-guard (ltb 0 (usb.urb_out d setup bytes).0) (usb.urb_out d setup bytes).1

  Ensures-receive :
      (setup : Setup) (n : ℕ) (buffer : List ℕ) (d : D)
      → n ≤ length buffer
      → Ensures (Long (length buffer)) (receive usb setup n buffer d)
  unfolding receive
  Ensures-receive setup n buffer d h =
      let (bytes, d') = usb.urb_in d setup n in
      let (buffer', e, len) = fill-length bytes buffer (omega (arith, reads d setup n, h)) in
      rw e (
        Ensures-bind Any (Long (length buffer)) (guard (ltb 0 (length bytes)) d')
          (λ _. pure buffer') (Ensures-guard (ltb 0 (length bytes)) d') (λ u d'' p. len))

  Ensures-get_ack : (junk : ℕ) (d : D) → Ensures Any (hp5590_get_ack usb junk d)
  unfolding hp5590_get_ack
  Ensures-get_ack junk d =
      Ensures-bind (Long 1) Any
        (receive usb (record { request = 12; value = 142; index = 32 }) 1 (junk ∷ []) d) _
        (Ensures-receive (record { request = 12; value = 142; index = 32 }) 1 (junk ∷ []) d
          (omega arith))
        λ buffer d' len.
          let (status, e) = get_elem?-lt buffer 0 (omega (arith, len)) in
          rw e (Ensures-guard (status == 1) d')

  Ensures-read_packets :
      (fuel : ℕ) (core : Bool) (len : ℕ) (buffer : List ℕ) (d : D)
      → len ≤ length buffer
      → Ensures (Long (length buffer)) (read_packets usb fuel core len buffer d)
  unfolding read_packets
  Ensures-read_packets zero core len buffer d h = refl
  Ensures-read_packets (suc fuel) core len buffer d h = elim (Bool-cases (len == 0)) [
    | inl done ↦ rw done refl
    | inr more ↦
        let setup : Setup = record { request = if core then 12 else 4; value = 144; index = 0 } in
        let n = packet_size len in
        let small : n ≤ len = ground arith in
        rw more (
          Ensures-bind (Long (length buffer)) (Long (length buffer)) (receive usb setup n buffer d)
            _ (Ensures-receive setup n buffer d (omega (arith, small, h)))
            λ buffer' d' same.
              Ensures-bind (Long (length (skip n buffer'))) (Long (length buffer))
                (read_packets usb fuel core (len - n) (skip n buffer') d') _
                (Ensures-read_packets fuel core (len - n) (skip n buffer') d'
                  (omega (arith, length-skip n buffer', same, h, small)))
                λ rest d'' left. omega (
                  arith,
                  length-append (take n buffer') rest,
                  length-take n buffer',
                  length-skip n buffer',
                  left,
                  same,
                  h,
                  small,
                ))
  ]

  pub Ensures-control_msg_in :
      (junk request value index : ℕ) (bytes : List ℕ) (size : ℕ) (core : Bool) (d : D)
      → size ≤ length bytes
      → Ensures
          (Long (length bytes))
          (control_msg_in usb junk request value index bytes size core d)
  unfolding control_msg_in
  Ensures-control_msg_in junk request value index bytes size core d h =
      Ensures-bind Any (Long (length bytes)) (send usb _ _ d) _ (Ensures-send _ _ d) λ _ d1 _.
        Ensures-bind Any (Long (length bytes)) (hp5590_get_ack usb junk d1) _
          (Ensures-get_ack junk d1)
          λ _ d2 _.
            Ensures-bind (Long (length bytes)) (Long (length bytes))
              (read_packets usb size core size bytes d2) _
              (Ensures-read_packets size core size bytes d2 h)
              λ bytes' d3 len.
                Ensures-bind Any (Long (length bytes)) (send usb _ _ d3) _ (Ensures-send _ _ d3)
                  λ _ d4 _.
                    Ensures-bind Any (Long (length bytes)) (hp5590_get_ack usb junk d4) _
                      (Ensures-get_ack junk d4) λ _ d5 _. len

  pub Ensures-verify : (junk cmd : ℕ) (d : D) → Ensures Any (hp5590_verify_last_cmd usb junk cmd d)
  unfolding hp5590_verify_last_cmd
  Ensures-verify junk cmd d =
      Ensures-bind (Long 2) Any (control_msg_in usb junk 4 197 0 (junk ∷ junk ∷ []) 2 false d) _
        (Ensures-control_msg_in junk 4 197 0 (junk ∷ junk ∷ []) 2 false d (omega arith))
        λ bytes d1 len.
          let (last_cmd, e) = get_elem?-lt bytes 0 (omega (arith, len)) in
          let (core_status, e') = get_elem?-lt bytes 1 (omega (arith, len)) in
          rw (e, e')
            (Ensures-bind Any Any (guard (cmd % 256 == last_cmd) d1) _
              (Ensures-guard (cmd % 256 == last_cmd) d1)
              λ _ d2 _. Ensures-guard (core_status / 2 % 2 == 0) d2)

  pub Ensures-cmd_in :
      (junk cmd : ℕ) (bytes : List ℕ) (size : ℕ) (core : Bool) (d : D)
      → size ≤ length bytes
      → Ensures (Long (length bytes)) (cmd_in usb junk true cmd bytes size core d)
  unfolding cmd_in
  Ensures-cmd_in junk cmd bytes size core d h =
      Ensures-bind (Long (length bytes)) (Long (length bytes))
        (control_msg_in usb junk 4 cmd 0 bytes size core d) _
        (Ensures-control_msg_in junk 4 cmd 0 bytes size core d h)
        λ bytes' d1 len.
          Ensures-bind Any (Long (length bytes)) (hp5590_verify_last_cmd usb junk cmd d1) _
            (Ensures-verify junk cmd d1) λ _ d2 _. len

pub hp5590_button-le : (high low : ℕ) → hp5590_button high low ≤ 5
unfolding hp5590_button last_pressed
hp5590_button-le high low = ground arith
