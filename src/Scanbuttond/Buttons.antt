-- ===== src/Scanbuttond/Buttons.antt =====
-- scanbtnd_get_button of the backends plustek.c, plustek_umax.c, hp3500.c, mustek.c and
-- snapscan.c in src/scanbuttond/backends, which talk by bulk transfers, and what gt68xx.c decodes; its
-- messages are in Messages.antt. `none` is an access outside a buffer.
pub mod Bound
pub mod Answer
pub mod Packets
pub mod Supported
use scanbd.Prelude.{
  ℕ, zero, suc, ◌>>=◌, ◌-◌, ◌*◌, ◌/◌, ◌%◌, ◌==◌, if◌then◌else◌, ◌&&◌, ◌||◌, not, Bool, true, false,
  Option, none, some, List, [], ◌∷◌, get_elem?, replicate, set, ℤ, pos, negsuc,
}
use scanbd.Scanbuttond.Device.{Scanner, einval}
use scanbd.Scanbuttond.Exchange.{Usb, query, receive}

-- byte & mask, for a mask of one bit
abbrev pub bit : ℕ → ℕ → Bool
bit mask byte = byte / mask % 2 == 1

-- `if (test) button = n;`, one after the other
unfoldable pub last_pressed : List (Bool × ℕ) → ℕ → ℕ
last_pressed [] button = button
last_pressed ((pressed, n) ∷ tests) button = last_pressed tests (if pressed then n else button)

-- switch (scanner->num_buttons), plustek.c
unfoldable pub plustek_button : ℕ → ℕ → ℕ
unfolding last_pressed
plustek_button (suc zero) b = last_pressed ((bit 4 b, 1) ∷ []) 0
plustek_button (suc (suc zero)) b = last_pressed ((bit 8 b, 1) ∷ (bit 4 b, 2) ∷ []) 0
plustek_button (suc (suc (suc zero))) b =
    last_pressed ((bit 16 b, 1) ∷ (bit 8 b, 2) ∷ (bit 4 b, 3) ∷ []) 0
plustek_button (suc (suc (suc (suc zero)))) b =
    last_pressed ((bit 8 b, 1) ∷ (bit 16 b, 2) ∷ (bit 32 b, 3) ∷ (bit 64 b, 4) ∷ []) 0
plustek_button (suc (suc (suc (suc (suc zero))))) b =
    last_pressed
      ((bit 4 b, 1)
        ∷ (bit 8 b, 2)
        ∷ (bit 16 b, 3)
        ∷ (bit 4 b && bit 8 b, 4)
        ∷ (bit 8 b && bit 16 b, 5)
        ∷ [])
      0
plustek_button _ b = 0

-- switch (scanner->num_buttons), plustek_umax.c
unfoldable pub plustek_umax_button : ℕ → ℕ → ℕ
unfolding last_pressed
plustek_umax_button (suc zero) b = last_pressed ((bit 4 b, 1) ∷ []) 0
plustek_umax_button (suc (suc zero)) b = last_pressed ((bit 8 b, 1) ∷ (bit 4 b, 2) ∷ []) 0
plustek_umax_button (suc (suc (suc zero))) b =
    last_pressed ((bit 16 b, 1) ∷ (bit 8 b, 2) ∷ (bit 4 b, 3) ∷ []) 0
plustek_umax_button (suc (suc (suc (suc zero)))) b =
    last_pressed ((bit 4 b, 1) ∷ (bit 8 b, 2) ∷ (bit 64 b, 3) ∷ (bit 32 b, 4) ∷ []) 0
plustek_umax_button _ b = 0

-- A button is pressed when its bit is 0; with more than one of them none counts (hp3500.c).
unfoldable pub hp3500_button : ℕ → ℕ
hp3500_button b =
    let masked = b / 4 % 8 * 4 in
    if masked == 24 then 1 else if masked == 20 then 2 else if masked == 12 then 3 else 0

-- switch (bytes[2]), mustek.c
unfoldable pub mustek_button : ℕ → ℕ
mustek_button b =
    if b == 16
    then 1
    else if b == 20
    then 2
    else if b == 18
    then 3
    else if b == 24
    then 4
    else if b == 17
    then 5
    else 0

-- switch (bytes[18] & 0xF0), snapscan.c
unfoldable pub snapscan_button : ℕ → ℕ → ℕ
snapscan_button sense b =
    let high = b / 16 % 16 * 16 in
    if sense == 6
    then (if high == 16
        then 1
        else if high == 32
        then 2
        else if high == 64
        then 3
        else if high == 128
        then 4
        else 0)
    else 0

-- The tests of bytes[2], gt68xx.c
unfoldable pub gt68xx_button : ℕ → ℕ
unfolding last_pressed
gt68xx_button b =
    last_pressed ((bit 2 b, 1) ∷ (bit 1 b, 2) ∷ (bit 4 b, 3) ∷ (bit 8 b, 4) ∷ (bit 16 b, 5) ∷ []) 0

-- The answer to a request is decoded from the byte `i`; a communication error counts as no button.
unfoldable pub answer : {D : Type 0} → (ℕ → ℕ) → ℕ → Option (List ℕ) → D → Option (ℤ × D)
answer decode i none d = some (pos 0, d)
answer decode i (some buffer) d = do byte ← get_elem? buffer i; some (pos (decode byte), d)

module _ {D : Type 0} (usb : Usb D) where
  -- A request, one answer of `n` bytes into the same buffer, one byte that counts.
  unfoldable pub ask : List ℕ → ℕ → List ℕ → (ℕ → ℕ) → ℕ → Scanner → D → Option (ℤ × D)
  ask request n buffer decode i s d =
      let asked = (do (reply, d') ← query usb request n buffer d; answer decode i reply d') in
      if s.is_open then asked else some (einval, d)

  abbrev pub plustek_get_button : Scanner → D → Option (ℤ × D)
  plustek_get_button s =
      ask (1 ∷ 2 ∷ 0 ∷ 1 ∷ []) 1 (1 ∷ 2 ∷ 0 ∷ 1 ∷ []) (plustek_button s.num_buttons) 0 s

  abbrev pub plustek_umax_get_button : Scanner → D → Option (ℤ × D)
  plustek_umax_get_button s =
      ask (1 ∷ 2 ∷ 0 ∷ 1 ∷ []) 1 (1 ∷ 2 ∷ 0 ∷ 1 ∷ []) (plustek_umax_button s.num_buttons) 0 s

  abbrev pub hp3500_get_button : Scanner → D → Option (ℤ × D)
  hp3500_get_button = ask (128 ∷ 208 ∷ 0 ∷ 1 ∷ []) 1 (128 ∷ 208 ∷ 0 ∷ 1 ∷ []) hp3500_button 0

  -- The rest of the buffer of 8 bytes is not initialised: `junk`.
  abbrev pub mustek_get_button : List ℕ → Scanner → D → Option (ℤ × D)
  mustek_get_button junk = ask (116 ∷ []) 8 (116 ∷ junk) mustek_button 2

-- The last read of snapscan.c, once the button is known.
unfoldable pub snapscan_end : {D : Type 0} → ℕ → Option (List ℕ) → D → Option (ℤ × D)
snapscan_end button none d = some (pos 0, d)
snapscan_end button (some buffer) d = some (pos button, d)

-- The request of gt68xx.c, the first 64 bytes of its buffer of 255.
abbrev pub gt68xx_request : ℕ → List ℕ
gt68xx_request n = set (41 ∷ 1 ∷ 168 ∷ 97 ∷ replicate (n - 4) 0) 56 46

unfoldable pub gt68xx_answer : {D : Type 0} → List ℕ → D → Option (ℤ × D)
gt68xx_answer buffer d = do
  b0 ← get_elem? buffer 0
  b1 ← get_elem? buffer 1
  b2 ← get_elem? buffer 2
  some (pos (if b0 == 0 && b1 == 41 then gt68xx_button b2 else 0), d)

module _ {D : Type 0} (usb : Usb D) where
  -- A read whose first byte is checked.
  unfoldable pub first_is : ℕ → Option (List ℕ) → D → Option (Option (List ℕ) × D)
  first_is code none d = some (none, d)
  first_is code (some buffer) d = do
    first ← get_elem? buffer 0
    if first == code then some (some buffer, d) else some (none, usb.libusb_flush d)

  unfoldable pub expect : ℕ → ℕ → List ℕ → D → Option (Option (List ℕ) × D)
  expect n code buffer d = do (reply, d') ← receive usb n buffer d; first_is code reply d'

  unfoldable pub snapscan_status : Option (List ℕ) → D → Option (ℤ × D)
  snapscan_status none d = some (pos 0, d)
  snapscan_status (some buffer) d = do
    sense ← get_elem? buffer 2
    byte ← get_elem? buffer 18
    (reply, d') ← expect 8 251 buffer d
    snapscan_end (snapscan_button sense byte) reply d'

  unfoldable pub snapscan_reply : Option (List ℕ) → D → Option (ℤ × D)
  snapscan_reply none d = some (pos 0, d)
  snapscan_reply (some buffer) d = do (reply, d') ← expect 20 240 buffer d; snapscan_status reply d'

  -- The request, in front of a buffer of 20 bytes whose rest is `junk`, and three reads.
  unfoldable pub snapscan_get_button : List ℕ → Scanner → D → Option (ℤ × D)
  snapscan_get_button junk s d =
      let (sent, d') = usb.libusb_write d (3 ∷ 0 ∷ 0 ∷ 0 ∷ 20 ∷ 0 ∷ []) in
      let asked = (do
        (reply, d'') ← expect 8 249 (3 ∷ 0 ∷ 0 ∷ 0 ∷ 20 ∷ 0 ∷ junk) d'
        snapscan_reply reply d'') in
      if s.is_open
      then (if sent == 6 then asked else some (pos 0, usb.libusb_flush d'))
      else some (einval, d)
