-- ===== src/Scanbuttond/Libusbi/Flush.antt =====
-- The loop of libusb_flush in src/scanbuttond/interface/libusbi.c.
use scanbd.Prelude.{
  ℕ, zero, suc, ◌+◌, ◌≤◌, ◌<◌, ◌≡◌, refl, inl, inr, Bool-cases, Option, none, some, List, length,
  arith, ltb, ltb→lt,
}
use scanbd.Scanbuttond.Exchange.{fill-length}
use scanbd.Scanbuttond.Libusbi.{LibusbDevice}
use scanbd.Scanbuttond.Libusbi.Calls.{Libusb, flush_test, libusb_flush}

-- A read gives no more bytes than were asked for.
abbrev pub BulkReadsAtMost : {D : Type 0} → Libusb D → Type 0
BulkReadsAtMost {D} lib =
    (d : D) (h ep n : ℕ) (bytes : List ℕ)
    → (lib.usb_bulk_read d h ep n).0 ≡ some bytes
    → length bytes ≤ n

-- A read that gives bytes takes them from those that are pending.
abbrev pub Drains : {D : Type 0} → Libusb D → (D → ℕ) → Type 0
Drains {D} lib pending =
    (d : D) (h ep n : ℕ) (bytes : List ℕ)
    → (lib.usb_bulk_read d h ep n).0 ≡ some bytes
    → length bytes + pending (lib.usb_bulk_read d h ep n).1 ≤ pending d

-- No bytes have come.
abbrev pub IsDry : Option (List ℕ) → Type 0
IsDry none = Unit {0}
IsDry (some bytes) = length bytes ≡ 0

-- The run ends with a read that brings nothing.
abbrev Ends : {D : Type 0} → Libusb D → LibusbDevice → ℕ → Option D → Type 0
Ends {D} lib device h result =
    (last d' : D) × (result ≡ some d')
    × ((lib.usb_bulk_read last h device.in_endpoint 16).1 ≡ d')
    × IsDry (lib.usb_bulk_read last h device.in_endpoint 16).0

module _ {D : Type 0} (lib : Libusb D) (pending : D → ℕ) (reads : BulkReadsAtMost lib)
    (drains : Drains lib pending) where
  flush_round :
      (fuel : ℕ) (device : LibusbDevice) (h : ℕ) (buffer : List ℕ) (d : D) (r : Option (List ℕ))
      → length buffer ≡ 16
      → pending d < suc fuel
      → (lib.usb_bulk_read d h device.in_endpoint 16).0 ≡ r
      → ((d' : D)
          → pending d' < fuel
          → Ends lib device h (libusb_flush lib fuel device h buffer d'))
      → Ends lib device h (libusb_flush lib (suc fuel) device h buffer d)
  unfolding libusb_flush flush_test
  flush_round fuel device h buffer d none len enough e ih =
      (d, (lib.usb_bulk_read d h device.in_endpoint 16).1, rw e refl, refl, rw e tt)
  flush_round fuel device h buffer d (some bytes) len enough e ih =
      let (buffer', f, _) =
        fill-length bytes buffer (omega (arith, reads d h device.in_endpoint 16 bytes e, len)) in
      elim (Bool-cases (ltb 0 (length bytes))) [
        | inl more ↦
            let left = drains d h device.in_endpoint 16 bytes e in
            let (last, d', x, y, dry) =
              ih (lib.usb_bulk_read d h device.in_endpoint 16).1
                (omega (arith, left, ltb→lt 0 (length bytes) more, enough)) in
            (last, d', rw (e, f, more) x, y, dry)
        | inr done ↦ (
          d,
          (lib.usb_bulk_read d h device.in_endpoint 16).1,
          rw (e, f, done) refl,
          refl,
          rw e (ground (arith, done)),
        )
      ]

  -- The loop that flushes the pipe ends, with a read that brings nothing, when it may make more reads
  -- than bytes are pending, and stays inside its buffer of 16 bytes, if a read gives no more bytes
  -- than were asked for and takes them from those that are pending.
  pub libusb_flush-IsDry :
      (fuel : ℕ) (device : LibusbDevice) (h : ℕ) (buffer : List ℕ) (d : D)
      → length buffer ≡ 16
      → pending d < fuel
      → (last d' : D) × (libusb_flush lib fuel device h buffer d ≡ some d')
        × ((lib.usb_bulk_read last h device.in_endpoint 16).1 ≡ d')
        × IsDry (lib.usb_bulk_read last h device.in_endpoint 16).0
  libusb_flush-IsDry zero device h buffer d len enough = absurd (omega arith)
  libusb_flush-IsDry (suc fuel) device h buffer d len enough =
      flush_round fuel device h buffer d (lib.usb_bulk_read d h device.in_endpoint 16).0 len enough
        refl (λ d' less. libusb_flush-IsDry fuel device h buffer d' len less)
