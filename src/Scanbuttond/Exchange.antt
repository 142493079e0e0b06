-- ===== src/Scanbuttond/Exchange.antt =====
-- The exchange of bytes with a scanner (src/scanbuttond/backends). `none` is an access outside a
-- buffer.
use scanbd.Prelude.{
  ℕ, suc, ◌≤◌, ◌≡◌, refl, ap, ◌==◌, if◌then◌else◌, inl, inr, Bool-cases, ◌>>=◌, Option, none, some,
  List, [], ◌∷◌, length, arith,
}

-- The calls of libusbi.c on an open device, whose state is a `D`: libusb_write gives the number of
-- bytes written, libusb_read the bytes that arrived, none of them for an error.
pub record Usb (D : Type 0) : Type 0 where
  pub libusb_write : D → List ℕ → ℕ × D
  pub libusb_read : D → ℕ → List ℕ × D
  pub libusb_flush : D → D

-- Bytes that arrive replace the first ones of the buffer.
unfoldable pub fill : List ℕ → List ℕ → Option (List ℕ)
fill [] buffer = some buffer
fill (b ∷ bytes) [] = none
fill (b ∷ bytes) (c ∷ buffer) = do rest ← fill bytes buffer; some (b ∷ rest)

module _ {D : Type 0} (usb : Usb D) where
  -- What becomes of the buffer, `none` within the result for a communication error, after which the
  -- pipe is flushed.
  unfoldable pub receive : ℕ → List ℕ → D → Option (Option (List ℕ) × D)
  receive n buffer d =
      let (bytes, d') = usb.libusb_read d n in
      do
        buffer' ← fill bytes buffer
        if length bytes == n then some (some buffer', d') else some (none, usb.libusb_flush d')

  -- Write a request, which stands in front of the buffer, and read `n` bytes into the buffer.
  unfoldable pub query : List ℕ → ℕ → List ℕ → D → Option (Option (List ℕ) × D)
  query request n buffer d =
      let (sent, d') = usb.libusb_write d request in
      let received = receive n buffer d' in
      if sent == length request then received else some (none, usb.libusb_flush d')

-- A read gives no more bytes than were asked for.
abbrev pub ReadsAtMost : {D : Type 0} → Usb D → Type 0
ReadsAtMost {D} usb = (d : D) (n : ℕ) → length (usb.libusb_read d n).0 ≤ n

pub fill-length :
    (bytes buffer : List ℕ)
    → length bytes ≤ length buffer
    → (buffer' : List ℕ) × (fill bytes buffer ≡ some buffer') × (length buffer' ≡ length buffer)
unfolding fill
fill-length [] buffer h = (buffer, refl, refl)
fill-length (b ∷ bytes) [] h = absurd (omega (arith, h))
fill-length (b ∷ bytes) (c ∷ buffer) h =
    let (rest, e, n) = fill-length bytes buffer (omega (arith, h)) in
    (b ∷ rest, rw e refl, ap suc n)

-- The buffer after an exchange, if it succeeded, has its length.
abbrev pub Fits : ℕ → Option (List ℕ) → Type 0
Fits n none = Unit {0}
Fits n (some buffer) = length buffer ≡ n

module _ {D : Type 0} (usb : Usb D) (reads : ReadsAtMost usb) where
  pub receive-Fits :
      (n : ℕ) (buffer : List ℕ) (d : D)
      → n ≤ length buffer
      → (r : Option (List ℕ)) × (d' : D) × (receive usb n buffer d ≡ some (r, d'))
        × Fits (length buffer) r
  unfolding receive
  receive-Fits n buffer d h =
      let (bytes, d') = usb.libusb_read d n in
      let (buffer', e, len) = fill-length bytes buffer (omega (arith, reads d n, h)) in
      elim (Bool-cases (length bytes == n)) [
        | inl all ↦ (some buffer', d', rw (e, all) refl, len)
        | inr short ↦ (none, usb.libusb_flush d', rw (e, short) refl, tt)
      ]

  pub query-Fits :
      (request : List ℕ) (n : ℕ) (buffer : List ℕ) (d : D)
      → n ≤ length buffer
      → (r : Option (List ℕ)) × (d' : D) × (query usb request n buffer d ≡ some (r, d'))
        × Fits (length buffer) r
  unfolding query
  query-Fits request n buffer d h =
      let (sent, d') = usb.libusb_write d request in
      elim (Bool-cases (sent == length request)) [
        | inl all ↦
            let (r, d'', e, fits) = receive-Fits n buffer d' h in (r, d'', rw (all, e) refl, fits)
        | inr short ↦ (none, usb.libusb_flush d', rw short refl, tt)
      ]
