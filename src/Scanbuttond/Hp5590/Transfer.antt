-- ===== src/Scanbuttond/Hp5590/Transfer.antt =====
-- The transfers in packets of src/scanbuttond/backends/hp5590.c.
use scanbd.Prelude.{
  ℕ, zero, suc, ◌-◌, ◌+◌, ◌≤◌, ◌<◌, ◌≡◌, refl, ap, ◌∙◌, Bool, false, some, List, [], ◌∷◌, ◌++◌,
  length, length-take, append_assoc, take, arith, ltb-true, ◌==◌, if◌then◌else◌,
}
use scanbd.Scanbuttond.Exchange.{fill}
use scanbd.Scanbuttond.Hp5590.{Urbs, skip, packet_size, receive, read_packets}
use scanbd.Scanbuttond.Hp5590.Ensures.{length-skip}

fill-front :
    (bytes buffer : List ℕ)
    → length bytes ≤ length buffer
    → fill bytes buffer ≡ some (bytes ++ skip (length bytes) buffer)
unfolding fill
fill-front [] buffer h = refl
fill-front (b ∷ bytes) [] h = absurd (omega (arith, h))
fill-front (b ∷ bytes) (c ∷ buffer) h = rw (fill-front bytes buffer (omega (arith, h))) refl

take-front : (bytes rest : List ℕ) (n : ℕ) → length bytes ≡ n → take n (bytes ++ rest) ≡ bytes
take-front [] rest zero e = refl
take-front [] rest (suc n) e = absurd (omega (arith, e))
take-front (b ∷ bytes) rest zero e = absurd (omega (arith, e))
take-front (b ∷ bytes) rest (suc n) e = ap (λ l. b ∷ l) (take-front bytes rest n (omega (arith, e)))

skip-front : (bytes rest : List ℕ) (n : ℕ) → length bytes ≡ n → skip n (bytes ++ rest) ≡ rest
skip-front [] rest zero e = refl
skip-front [] rest (suc n) e = absurd (omega (arith, e))
skip-front (b ∷ bytes) rest zero e = absurd (omega (arith, e))
skip-front (b ∷ bytes) rest (suc n) e = skip-front bytes rest n (omega (arith, e))

skip-skip : (m n : ℕ) (bytes : List ℕ) → skip n (skip m bytes) ≡ skip (m + n) bytes
skip-skip zero n bytes = let e : 0 + n ≡ n = omega arith in rw e refl
skip-skip (suc m) zero [] = let e : suc m + zero ≡ suc m = omega arith in rw e refl
skip-skip (suc m) (suc n) [] = let e : suc m + suc n ≡ suc (m + suc n) = omega arith in rw e refl
skip-skip (suc m) n (b ∷ bytes) =
    let e : suc m + n ≡ suc (m + n) = omega arith in rw e (skip-skip m n bytes)

take-skip : (m n : ℕ) (bytes : List ℕ) → take m bytes ++ take n (skip m bytes) ≡ take (m + n) bytes
take-skip zero n bytes = let e : 0 + n ≡ n = omega arith in rw e refl
take-skip (suc m) zero [] = let e : suc m + zero ≡ suc m = omega arith in rw e refl
take-skip (suc m) (suc n) [] = let e : suc m + suc n ≡ suc (m + suc n) = omega arith in rw e refl
take-skip (suc m) n (b ∷ bytes) =
    let e : suc m + n ≡ suc (m + n) = omega arith in rw e (ap (λ l. b ∷ l) (take-skip m n bytes))

pieces :
    (m n k : ℕ) (all later buffer : List ℕ)
    → later ≡ skip m all
    → m + n ≡ k
    → take m all ++ (take n later ++ skip n (skip m buffer)) ≡ take k all ++ skip k buffer
pieces m n k all later buffer e whole =
    rw
      (
        e,
        skip-skip m n buffer,
        ← append_assoc (take m all) (take n (skip m all)) (skip (m + n) buffer),
        take-skip m n all,
        whole,
      )
      refl

-- A device that gives its data in order: a read of data (value 0x90) takes the first bytes.
abbrev pub Serves : {D : Type 0} → Urbs D → (D → List ℕ) → Type 0
Serves {D} usb queue =
    (d : D) (request n : ℕ)
    → ((usb.urb_in d (record { request = request; value = 144; index = 0 }) n).0 ≡ take n (queue d))
      × (queue (usb.urb_in d (record { request = request; value = 144; index = 0 }) n).1
          ≡ skip n (queue d))

module _ {D : Type 0} (usb : Urbs D) (queue : D → List ℕ) (serves : Serves usb queue) where
  receive-take :
      (request n : ℕ) (buffer : List ℕ) (d : D)
      → 0 < n
      → n ≤ length buffer
      → n ≤ length (queue d)
      → receive usb (record { request = request; value = 144; index = 0 }) n buffer d
        ≡ some (
          some (take n (queue d) ++ skip n buffer),
          (usb.urb_in d (record { request = request; value = 144; index = 0 }) n).1,
        )
  unfolding receive
  receive-take request n buffer d p h k =
      let (got, _) = serves d request n in
      let len : length (take n (queue d)) ≡ n = omega (arith, length-take n (queue d), k) in
      let front = fill-front (take n (queue d)) buffer (omega (arith, len, h)) in
      rw (got, front, len, ltb-true 0 n p) refl

  -- A read of `len` bytes in packets of at most 8 takes exactly the next `len` bytes that the device
  -- has, in their order, puts them into the first `len` places of the buffer and leaves the others as
  -- they were, when there are that many bytes and places and the loop may make `len` rounds, if a
  -- read of data takes the first bytes that the device has.
  pub read_packets-take :
      (fuel : ℕ) (core : Bool) (len : ℕ) (buffer : List ℕ) (d : D)
      → len ≤ fuel
      → len ≤ length buffer
      → len ≤ length (queue d)
      → (d' : D) × (read_packets usb fuel core len buffer d
          ≡ some (some (take len (queue d) ++ skip len buffer), d'))
        × (queue d' ≡ skip len (queue d))
  unfolding read_packets
  read_packets-take zero core zero buffer d f h k = (d, refl, refl)
  read_packets-take zero core (suc len) buffer d f h k = absurd (omega arith)
  read_packets-take (suc fuel) core zero buffer d f h k = (d, refl, refl)
  read_packets-take (suc fuel) core (suc len) buffer d f h k =
      let request : ℕ = if core then 12 else 4 in
      let n = packet_size (suc len) in
      let more : (suc len == 0) ≡ false = ground arith in
      let some_byte : 0 < n = ground arith in
      let small : n ≤ suc len = ground arith in
      let d1 = (usb.urb_in d (record { request = request; value = 144; index = 0 }) n).1 in
      let (_, left) = serves d request n in
      let got =
        receive-take request n buffer d some_byte (omega (arith, small, h))
          (omega (arith, small, k)) in
      let rest = skip n buffer in
      let there : length (take n (queue d)) ≡ n =
        omega (arith, length-take n (queue d), small, k) in
      let (d', e, end) =
        read_packets-take fuel core (suc len - n) (skip n buffer) d1 (omega (arith, f, some_byte))
          (omega (arith, length-skip n buffer, h, small))
          (rw left (omega (arith, length-skip n (queue d), k, small))) in
      let whole : n + (suc len - n) ≡ suc len = omega (arith, small) in
      (
        d',
        rw
            (
              more,
              got,
              skip-front (take n (queue d)) rest n there,
              e,
              take-front (take n (queue d)) rest n there,
            )
            (ap (λ l. some (some l, d'))
              (pieces n (suc len - n) (suc len) (queue d) (queue d1) buffer left whole)),
        end
            ∙ (ap (λ q. skip (suc len - n) q) left
                ∙ (skip-skip n (suc len - n) (queue d) ∙ ap (λ m. skip m (queue d)) whole)),
      )
