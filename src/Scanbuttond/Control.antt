-- ===== src/Scanbuttond/Control.antt =====
-- scanbtnd_get_button of hp3900.c and genesys.c in src/scanbuttond/backends, which read a register by
-- control messages.
pub mod Pressed
use scanbd.Prelude.{
  ℕ, zero, suc, ◌-◌, ◌*◌, ◌%◌, ◌==◌, ◌>>=◌, if◌then◌else◌, Bool, true, false, Option, none, some,
  List, [], ◌∷◌, length, get_elem?, ℤ, pos,
}
use scanbd.Scanbuttond.Device.{Scanner, einval}
use scanbd.Scanbuttond.Buttons.{bit}

-- libusb_control_msg on an open device for a request that sends or receives: the number of bytes
-- sent, or the bytes that arrive.
pub record Control (D : Type 0) : Type 0 where
  pub control_out : D → List ℕ → ℕ × D
  pub control_in : D → ℕ → List ℕ × D
  pub libusb_flush : D → D

-- The loop over the buttons of hp3900.c, with the rounds left: the first one whose bit is 0.
unfoldable pub first_clear : ℕ → ℕ → ℕ → ℕ → ℕ
first_clear zero c mask b = 0
first_clear (suc k) c mask b =
    let rest = first_clear k (suc c) (mask * 2) b in if bit mask b then rest else suc c

abbrev pub hp3900_button : ℕ → ℕ → ℕ
hp3900_button num_buttons b = first_clear num_buttons 0 1 b

-- button_map_lide60 of genesys.c, without its unused rest.
abbrev pub button_map_lide60 : List ℕ
button_map_lide60 = 0 ∷ 2 ∷ 3 ∷ 5 ∷ 4 ∷ 6 ∷ 7 ∷ 8 ∷ 1 ∷ 9 ∷ 10 ∷ 11 ∷ 12 ∷ 13 ∷ 14 ∷ 15 ∷ []

-- The index (byte ^ 0x1f) & 0x0f: the complement of the low four bits.
unfoldable pub genesys_button : ℕ → Option ℕ
genesys_button b = get_elem? button_map_lide60 (15 - b % 16)

module _ {D : Type 0} (usb : Control D) where
  unfoldable pub hp3900_get_button : Scanner → D → Option (ℤ × D)
  hp3900_get_button s d =
      let (bytes, d') = usb.control_in d 2 in
      let asked =
        if length bytes == 2
        then (do b ← get_elem? bytes 0; some (pos (hp3900_button s.num_buttons b), d'))
        else some (pos 0, usb.libusb_flush d') in
      if s.is_open then asked else some (einval, d)

  unfoldable pub genesys_get_button : Scanner → D → Option (ℤ × D)
  genesys_get_button s d =
      let (sent, d') = usb.control_out d (109 ∷ []) in
      let (bytes, d'') = usb.control_in d' 1 in
      let asked =
        if length bytes == 1
        then (do b ← get_elem? bytes 0; button ← genesys_button b; some (pos button, d''))
        else some (pos 0, d'') in
      if s.is_open then (if sent == 1 then asked else some (pos 0, d')) else some (einval, d)
