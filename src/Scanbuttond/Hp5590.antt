-- ===== src/Scanbuttond/Hp5590.antt =====
-- The exchange of src/scanbuttond/backends/hp5590.c, USB in USB. `none` is an access outside a buffer;
-- `none` within a result is -1.
pub mod Transfer
pub mod Ensures
pub mod Answer
use scanbd.Prelude.{
  ℕ, zero, suc, ◌-◌, ◌*◌, ◌+◌, ◌/◌, ◌%◌, ◌==◌, ltb, if◌then◌else◌, Bool, true, false, Option, none,
  some, List, [], ◌∷◌, ◌++◌, length, get_elem?, take, ℤ, pos,
}
use scanbd.Scanbuttond.Device.{Scanner, einval}
use scanbd.Scanbuttond.Exchange.{fill}
use scanbd.Scanbuttond.Libusbi.Calls.{Setup}
use scanbd.Scanbuttond.Buttons.{bit, last_pressed}

-- libusb_control_msg on an open device, to it and from it: the number of bytes that are sent, and the
-- bytes that arrive; none for an error.
pub record Urbs (D : Type 0) : Type 0 where
  pub urb_out : D → Setup → List ℕ → ℕ × D
  pub urb_in : D → Setup → ℕ → List ℕ × D
  pub libusb_flush : D → D

-- A step that may fail, of a device whose state is a `D`.
abbrev pub M : Type 0 → Type 0 → Type 0
M D A = D → Option (Option A × D)

abbrev pub then_run : {D A B : Type 0} → Option (Option A × D) → (A → M D B) → Option (Option B × D)
then_run none f = none
then_run (some (none, d)) f = some (none, d)
then_run (some (some a, d)) f = f a d

infixl 5 ◌>>=◌ ◌>>◌
abbrev pub ◌>>=◌ : {D A B : Type 0} → M D A → (A → M D B) → M D B
◌>>=◌ m f d = then_run (m d) f

abbrev pub ◌>>◌ : {D B : Type 0} → M D (Unit {0}) → M D B → M D B
m >> k = m >>= λ _. k

abbrev pub pure : {D A : Type 0} → A → M D A
pure a d = some (some a, d)

-- return -1 unless the test holds
abbrev pub guard : {D : Type 0} → Bool → M D (Unit {0})
guard true d = some (some tt, d)
guard false d = some (none, d)

-- An access to memory.
abbrev pub access : {D A : Type 0} → Option A → M D A
access none d = none
access (some a) d = some (some a, d)

-- The bytes from the index `n` on.
abbrev pub skip : ℕ → List ℕ → List ℕ
skip zero bytes = bytes
skip (suc n) [] = []
skip (suc n) (b ∷ bytes) = skip n bytes

-- next_packet_size
abbrev pub packet_size : ℕ → ℕ
packet_size len = if ltb len 8 then len else 8

-- struct usb_in_usb_ctrl_setup: two numbers in network order, the length in that of the host, which
-- has the low byte first.
abbrev pub ctrl_setup : ℕ → ℕ → ℕ → ℕ → ℕ → List ℕ
ctrl_setup type request value index size =
    type
    ∷ (request % 256)
    ∷ (value / 256 % 256)
    ∷ (value % 256)
    ∷ (index / 256 % 256)
    ∷ (index % 256)
    ∷ (size % 256)
    ∷ (size / 256 % 256)
    ∷ []

module _ {D : Type 0} (usb : Urbs D) where
  -- A message to the device, `ret <= 0` being an error.
  unfoldable pub send : Setup → List ℕ → M D (Unit {0})
  send setup bytes d = let (ret, d') = usb.urb_out d setup bytes in guard (ltb 0 ret) d'

  -- A message from the device into the start of a buffer.
  unfoldable pub receive : Setup → ℕ → List ℕ → M D (List ℕ)
  receive setup n buffer d =
      let (bytes, d') = usb.urb_in d setup n in
      (do buffer' ← access (fill bytes buffer); guard (ltb 0 (length bytes)); pure buffer') d'

  -- `junk` is what an uninitialised byte holds.
  unfoldable pub hp5590_get_ack : ℕ → M D (Unit {0})
  hp5590_get_ack junk = do
    buffer ← receive (record { request = 12; value = 142; index = 32 }) 1 (junk ∷ [])
    status ← access (get_elem? buffer 0)
    guard (status == 1)

  -- The loop that reads `len` bytes in packets, the buffer from `ptr` on, for `fuel` packets at most.
  unfoldable pub read_packets : ℕ → Bool → ℕ → List ℕ → M D (List ℕ)
  read_packets zero core len buffer = pure buffer
  read_packets (suc fuel) core len buffer =
      let n = packet_size len in
      let rest = (do
        buffer' ←
            receive (record { request = if core then 12 else 4; value = 144; index = 0 }) n buffer
        tail ← read_packets fuel core (len - n) (skip n buffer')
        pure (take n buffer' ++ tail)) in
      if len == 0 then pure buffer else rest

  -- hp5590_control_msg with USB_DIR_IN; `core` is core_flags & CORE_DATA.
  unfoldable pub control_msg_in : ℕ → ℕ → ℕ → ℕ → List ℕ → ℕ → Bool → M D (List ℕ)
  control_msg_in junk request value index bytes size core = do
    send (record { request = 4; value = 143; index = 0 }) (ctrl_setup 192 request value index size)
    hp5590_get_ack junk
    bytes' ← read_packets size core size bytes
    send (record { request = 12; value = 143; index = 0 }) (0 ∷ [])
    hp5590_get_ack junk
    pure bytes'

  -- if (core_flags & CORE_DATA)
  abbrev pub ack_if : Bool → ℕ → M D (Unit {0})
  ack_if true junk = hp5590_get_ack junk
  ack_if false junk = pure tt

  -- The loop that sends `len` bytes in packets, for `fuel` packets at most.
  unfoldable pub write_packets : ℕ → Bool → ℕ → ℕ → List ℕ → M D (Unit {0})
  write_packets zero core junk len bytes = pure tt
  write_packets (suc fuel) core junk len bytes =
      let n = packet_size len in
      let rest = (do
        send (record { request = if core then 4 else 12; value = 143; index = 0 }) (take n bytes)
        ack_if core junk
        write_packets fuel core junk (len - n) (skip n bytes)) in
      if len == 0 then pure tt else rest

  abbrev pub ack_unless : Bool → ℕ → M D (Unit {0})
  ack_unless true junk = pure tt
  ack_unless false junk = hp5590_get_ack junk

  -- hp5590_control_msg without USB_DIR_IN.
  unfoldable pub control_msg_out : ℕ → ℕ → ℕ → ℕ → List ℕ → ℕ → Bool → M D (Unit {0})
  control_msg_out junk request value index bytes size core = do
    send (record { request = 4; value = 143; index = 0 }) (ctrl_setup 64 request value index size)
    hp5590_get_ack junk
    write_packets size core junk size bytes
    ack_unless core junk
    buffer ← receive (record { request = 12; value = 144; index = 0 }) 1 (junk ∷ [])
    response ← access (get_elem? buffer 0)
    guard (response == 0)

  -- The low byte is the last command, the high byte the state of the core, of which a bit says that
  -- it is not ready.
  unfoldable pub hp5590_verify_last_cmd : ℕ → ℕ → M D (Unit {0})
  hp5590_verify_last_cmd junk cmd = do
    bytes ← control_msg_in junk 4 197 0 (junk ∷ junk ∷ []) 2 false
    last_cmd ← access (get_elem? bytes 0)
    core_status ← access (get_elem? bytes 1)
    guard (cmd % 256 == last_cmd)
    guard (core_status / 2 % 2 == 0)

  abbrev pub verify_if : Bool → ℕ → ℕ → M D (Unit {0})
  verify_if true junk cmd = hp5590_verify_last_cmd junk cmd
  verify_if false junk cmd = pure tt

  -- hp5590_cmd with CMD_IN; `verify` is flags & CMD_VERIFY.
  unfoldable pub cmd_in : ℕ → Bool → ℕ → List ℕ → ℕ → Bool → M D (List ℕ)
  cmd_in junk verify cmd bytes size core = do
    bytes' ← control_msg_in junk 4 cmd 0 bytes size core
    verify_if verify junk cmd
    pure bytes'

  unfoldable pub cmd_out : ℕ → Bool → ℕ → List ℕ → ℕ → Bool → M D (Unit {0})
  cmd_out junk verify cmd bytes size core = do
    control_msg_out junk 4 cmd 0 bytes size core
    verify_if verify junk cmd

-- button_status, in network order
unfoldable pub hp5590_button : ℕ → ℕ → ℕ
unfolding last_pressed
hp5590_button high low =
    let status = high * 256 + low in
    last_pressed
      ((bit 4 status, 1)
        ∷ (bit 2 status, 2)
        ∷ (bit 512 status, 3)
        ∷ (bit 32768 status, 4)
        ∷ (bit 16384 status, 5)
        ∷ [])
      0

module _ {D : Type 0} (usb : Urbs D) where
  unfoldable pub status_button : Option (Option (List ℕ) × D) → Option (ℤ × D)
  status_button none = none
  status_button (some (none, d)) = some (pos 0, usb.libusb_flush d)
  status_button (some (some (high ∷ low ∷ bytes), d)) = some (pos (hp5590_button high low), d)
  status_button (some (some _, d)) = none

  unfoldable pub hp5590_get_button : ℕ → Scanner → D → Option (ℤ × D)
  hp5590_get_button junk s d =
      let asked = status_button (cmd_in usb junk true 32 (junk ∷ junk ∷ []) 2 false d) in
      if s.is_open then asked else some (einval, d)
