-- ===== src/Scanbuttond/Libusbi/Attached.antt =====
-- Which devices libusb_rescan of src/scanbuttond/interface/libusbi.c attaches, and how.
use scanbd.Prelude.{
  ℕ, zero, suc, ◌+◌, ◌<◌, ◌≡◌, ◌⊎◌, refl, ap, sym, subst, ◌∙◌, inl, inr, ◌==◌, ◌&&◌, not, Bool,
  true, false, Bool-cases, Option, none, some, List, [], ◌∷◌, ◌++◌, append_assoc, append-nil, map,
  All, arith, if◌then◌else◌, get_elem?, get_elem?-lt, get_elem?-inside, lit,
}
use mathlib.Core.Option.{some-injective}
use scanbd.Scanbuttond.Libusbi.{
  Endpoint, AltSetting, RawDevice, LibusbDevice, is_usable, search_from, is_bulk, is_in, or_address,
  search_endpoints, attach_interface, libusb_attach_device, attach_devices, attach_busses,
  libusb_rescan,
}

-- The address of the first endpoint that meets `p` and has one, 0 if there is none.
abbrev pub first_address : (Endpoint → Bool) → List Endpoint → ℕ
first_address p [] = 0
first_address p (endpoint ∷ endpoints) =
    let rest = first_address p endpoints in
    if p endpoint && not (endpoint.address == 0) then endpoint.address else rest

abbrev pub bulk_in : Endpoint → Bool
bulk_in endpoint = is_bulk endpoint && is_in endpoint

abbrev pub bulk_out : Endpoint → Bool
bulk_out endpoint = is_bulk endpoint && not (is_in endpoint)

search_endpoints-first :
    (i o : ℕ) (endpoints : List Endpoint)
    → search_endpoints i o endpoints ≡ (
      if i == 0 then first_address bulk_in endpoints else i,
      if o == 0 then first_address bulk_out endpoints else o,
    )
unfolding search_endpoints
search_endpoints-first i o [] = ground arith
search_endpoints-first i o (endpoint ∷ endpoints) = ground (
  arith,
  search_endpoints-first
      (if is_bulk endpoint then (if is_in endpoint then or_address i endpoint else i) else i)
      (if is_bulk endpoint then (if is_in endpoint then o else or_address o endpoint) else o)
      endpoints,
)

-- The interface `i` is usable, and none before it is.
abbrev IsLowest : RawDevice → ℕ → Type 0
IsLowest device i =
    ((alt : AltSetting) × (get_elem? device.interfaces i ≡ some alt)
      × (is_usable device.device_class alt ≡ true))
    × ((j : ℕ) (alt : AltSetting)
        → j < i
        → get_elem? device.interfaces j ≡ some alt
        → is_usable device.device_class alt ≡ false)

-- Does the device have a usable interface?
abbrev pub any_usable : ℕ → List AltSetting → Bool
any_usable device_class [] = false
any_usable device_class (alt ∷ alts) =
    let rest = any_usable device_class alts in if is_usable device_class alt then true else rest

abbrev pub has_interface : RawDevice → Bool
has_interface device = any_usable device.device_class device.interfaces

-- A device as a rescan lists it: closed, with its own numbers and location, the lowest usable
-- interface, and the first bulk endpoints of the first interface.
abbrev pub IsAttached : LibusbDevice → Type 0
IsAttached d =
    (d.handle ≡ none)
    × (d.vendor_id ≡ d.device.vendor)
    × (d.product_id ≡ d.device.product)
    × (d.location ≡ d.device.dirname ++ lit ":" ++ d.device.filename)
    × IsLowest d.device d.interface
    × ((alt : AltSetting) × (get_elem? d.device.interfaces 0 ≡ some alt)
        × (d.in_endpoint ≡ first_address bulk_in alt.endpoints)
        × (d.out_endpoint ≡ first_address bulk_out alt.endpoints))

-- What the loop finds in the rest of the interfaces.
abbrev Found : ℕ → ℕ → List AltSetting → Option ℕ → Type 0
Found c n alts found =
    ((found ≡ none) × (any_usable c alts ≡ false))
    ⊎ ((i : ℕ) × (alt : AltSetting) × (found ≡ some (n + i))
        × (any_usable c alts ≡ true)
        × (get_elem? alts i ≡ some alt)
        × (is_usable c alt ≡ true)
        × ((j : ℕ) (other : AltSetting)
            → j < i
            → get_elem? alts j ≡ some other
            → is_usable c other ≡ false))

search_from-Found : (c n : ℕ) (alts : List AltSetting) → Found c n alts (search_from c n alts)
unfolding search_from
search_from-Found c n [] = inl (refl, refl)
search_from-Found c n (alt ∷ alts) = elim (Bool-cases (is_usable c alt)) [
  | inl e ↦
      inr (
        0,
        alt,
        rw e (ap some (omega arith)),
        rw e refl,
        refl,
        e,
        λ j other h. absurd (omega arith),
      )
  | inr e ↦ next e (search_from-Found c (suc n) alts)
]
  where
    next :
        is_usable c alt ≡ false
        → Found c (suc n) alts (search_from c (suc n) alts)
        → Found c n (alt ∷ alts) (search_from c n (alt ∷ alts))
    next e (inl (f, r)) = inl (rw e f, rw e r)
    next e (inr (i, alt', f, r, g, u, below)) =
        inr (suc i, alt', rw e (f ∙ ap some (omega arith)), rw e r, g, u, earlier e below)
      where
        earlier :
            {i : ℕ}
            → is_usable c alt ≡ false
            → ((j : ℕ) (other : AltSetting)
                → j < i
                → get_elem? alts j ≡ some other
                → is_usable c other ≡ false)
            → (j : ℕ) (other : AltSetting) → j < suc i
            → get_elem? (alt ∷ alts) j ≡ some other
            → is_usable c other ≡ false
        earlier e below zero other h g = subst (λ a. is_usable c a ≡ false) (some-injective _ _ g) e
        earlier e below (suc j) other h g = below j other (omega (arith, h)) g

abbrev pub own_device : RawDevice → List RawDevice
own_device device = if has_interface device then device ∷ [] else []

-- The devices with a usable interface, the last one first.
abbrev pub newest_usable : List RawDevice → List RawDevice
newest_usable [] = []
newest_usable (device ∷ devices) = newest_usable devices ++ own_device device

-- The devices of all buses in the order in which they are listed.
abbrev pub concat_busses : List (List RawDevice) → List RawDevice
concat_busses [] = []
concat_busses (bus ∷ busses) = bus ++ concat_busses busses

-- The result of attaching `new` in front of `old`.
abbrev Attaches : List RawDevice → List LibusbDevice → Option (List LibusbDevice) → Type 0
Attaches new old result =
    (devices : List LibusbDevice) × (result ≡ some devices)
    × (map LibusbDevice.device devices ≡ newest_usable new ++ map LibusbDevice.device old)
    × All IsAttached devices

attach_one :
    (device : RawDevice) (old : List LibusbDevice)
    → All IsAttached old
    → Attaches (device ∷ []) old (libusb_attach_device device old)
unfolding attach_interface
attach_one device old h = elim (search_from-Found device.device_class 0 device.interfaces) [
  | inl (f, r) ↦ (old, ap (attach_interface device old) f, rw r refl, h)
  | inr (i, alt, f, r, g, u, below) ↦
      let inside = get_elem?-inside device.interfaces i g in
      let (front, e) = get_elem?-lt device.interfaces 0 (omega (arith, inside)) in
      let zero_i : 0 + i ≡ i = omega arith in
      let ends = search_endpoints-first 0 0 front.endpoints in
      (
        record {
          vendor_id = device.vendor;
          product_id = device.product;
          location = device.dirname ++ lit ":" ++ device.filename;
          device = device;
          handle = none;
          interface = i;
          out_endpoint = (search_endpoints 0 0 front.endpoints).1;
          in_endpoint = (search_endpoints 0 0 front.endpoints).0;
        }
            ∷ old,
        ap (attach_interface device old) (f ∙ ap some zero_i) ∙ rw e refl,
        rw r refl,
        (
          (
            refl,
            refl,
            refl,
            refl,
            ((alt, g, u), below),
            (front, e, ap (λ p. p.0) ends, ap (λ p. p.1) ends),
          ),
          h,
        ),
      )
]

attach_devices-Attaches :
    (bus : List RawDevice) (old : List LibusbDevice)
    → All IsAttached old
    → Attaches bus old (attach_devices bus old)
unfolding attach_devices
attach_devices-Attaches [] old h = (old, refl, refl, h)
attach_devices-Attaches (device ∷ bus) old h =
    let (first, e, d, h') = attach_one device old h in
    let (last, e', d', h'') = attach_devices-Attaches bus first h' in
    (
      last,
      rw e e',
      d'
          ∙ (ap (λ x. newest_usable bus ++ x) d
              ∙ sym (
                  append_assoc (newest_usable bus) (own_device device)
                    (map LibusbDevice.device old))),
      h'',
    )

newest_usable-append :
    (xs ys : List RawDevice) → newest_usable (xs ++ ys) ≡ newest_usable ys ++ newest_usable xs
newest_usable-append [] ys = sym (append-nil (newest_usable ys))
newest_usable-append (x ∷ xs) ys =
    ap (λ l. l ++ own_device x) (newest_usable-append xs ys)
    ∙ append_assoc (newest_usable ys) (newest_usable xs) (own_device x)

attach_busses-Attaches :
    (busses : List (List RawDevice)) (old : List LibusbDevice)
    → All IsAttached old
    → Attaches (concat_busses busses) old (attach_busses busses old)
unfolding attach_busses
attach_busses-Attaches [] old h = (old, refl, refl, h)
attach_busses-Attaches (bus ∷ busses) old h =
    let (first, e, d, h') = attach_devices-Attaches bus old h in
    let (last, e', d', h'') = attach_busses-Attaches busses first h' in
    (
      last,
      rw e e',
      d'
          ∙ (ap (λ x. newest_usable (concat_busses busses) ++ x) d
              ∙ (sym (
                    append_assoc (newest_usable (concat_busses busses)) (newest_usable bus)
                      (map LibusbDevice.device old))
                  ∙ ap (λ x. x ++ map LibusbDevice.device old)
                      (sym (newest_usable-append bus (concat_busses busses))))),
      h'',
    )

-- A rescan of the USB devices meets no access outside an array and lists exactly the devices on the
-- buses that have a usable interface, the last one first, whatever was listed before: each closed,
-- with its own numbers and location, its lowest usable interface, and the first bulk endpoints in
-- each direction of its first interface, 0 where there is none.
pub libusb_rescan-IsAttached :
    (busses : List (List RawDevice)) (old : List LibusbDevice)
    → (devices : List LibusbDevice) × (libusb_rescan busses old ≡ some devices)
      × (map LibusbDevice.device devices ≡ newest_usable (concat_busses busses))
      × All IsAttached devices
libusb_rescan-IsAttached busses old =
    let (devices, e, d, h) = attach_busses-Attaches busses [] tt in
    (devices, e, d ∙ append-nil (newest_usable (concat_busses busses)), h)
