-- ===== src/Scanbuttond/Meta/Listed.antt =====
-- The scanners that the meta backend, src/scanbuttond/backends/meta.c, lists after a scan.
use scanbd.Prelude.{
  ℕ, zero, suc, ◌+◌, ◌*◌, ◌≤◌, ◌≡◌, refl, ap, sym, subst, ◌∙◌, inl, inr, true, false, leb, Option,
  none, some, Option-cases, List, [], ◌∷◌, ◌++◌, append_assoc, append-nil, length, length-append,
  take, arith, ◌>>=◌,
}
use mathlib.Core.Option.{some-injective}
use scanbd.Prelude.{All, All-append, get_elem?, length-take}
use scanbd.Scanbuttond.Device.{Scanner}
use scanbd.Scanbuttond.Meta.{
  Module, MetaScanner, Meta, attach_from, meta_attach_scanner, rescan_backends, scanbtnd_rescan,
}

module _ {S : Type 0} where
  -- Scanners in the opposite order, with their backend.
  abbrev pub newest_tagged : Module S → List Scanner → List (MetaScanner S)
  newest_tagged backend [] = []
  newest_tagged backend (dev ∷ devices) =
      newest_tagged backend devices ++ record { scanner = dev; meta_info = some backend } ∷ []

  attach_from-take :
      (count left : ℕ) (devices : List Scanner) (backend : Module S)
      (scanners : List (MetaScanner S))
      → count + left ≡ 16
      → attach_from count devices backend scanners
        ≡ newest_tagged backend (take left devices) ++ scanners
  unfolding attach_from
  attach_from-take count zero [] backend scanners e = refl
  attach_from-take count (suc left) [] backend scanners e = refl
  attach_from-take count zero (dev ∷ devices) backend scanners e =
      let full : leb 16 count ≡ true = ground arith in rw full refl
  attach_from-take count (suc left) (dev ∷ devices) backend scanners e =
      let room : leb 16 count ≡ false = ground arith in
      rw room (
        attach_from-take (suc count) left devices backend (meta_attach_scanner dev backend scanners)
          (omega arith)
        ∙ sym (
            append_assoc (newest_tagged backend (take left devices))
              (record { scanner = dev; meta_info = some backend } ∷ []) scanners))

  -- What a scan lists: the first 16 scanners of each backend as its own scan leaves them, the last
  -- one first, and those of later backends in front.
  abbrev pub list_scanners : List (Module S) → S → Option (List (MetaScanner S) × S)
  list_scanners [] s = some ([], s)
  list_scanners (backend ∷ backends) s = do
    s' ← backend.rescan s
    (scanners, s'') ← list_scanners backends s'
    some (scanners ++ newest_tagged backend (take 16 (backend.get_supported_devices s')), s'')

  abbrev in_front_of :
      List (MetaScanner S) → Option (List (MetaScanner S) × S) → Option (List (MetaScanner S) × S)
  in_front_of old none = none
  in_front_of old (some (scanners, s)) = some (scanners ++ old, s)

  rescan_backends-list_scanners :
      (backends : List (Module S)) (old : List (MetaScanner S)) (s : S)
      → rescan_backends backends old s ≡ in_front_of old (list_scanners backends s)
  unfolding rescan_backends
  rescan_backends-list_scanners [] old s = refl
  rescan_backends-list_scanners (backend ∷ backends) old s =
      elim (Option-cases (backend.rescan s)) [
        | inl e ↦ rw e refl
        | inr (s', e) ↦
            rw
              (
                e,
                attach_from-take 0 16 (backend.get_supported_devices s') backend old refl,
                rescan_backends-list_scanners backends
                    (newest_tagged backend (take 16 (backend.get_supported_devices s')) ++ old) s',
              )
              (joined (newest_tagged backend (take 16 (backend.get_supported_devices s')))
                (list_scanners backends s'))
      ]
    where
      joined :
          (extra : List (MetaScanner S)) (o : Option (List (MetaScanner S) × S))
          → in_front_of (extra ++ old) o ≡ in_front_of old (o >>= λ p. some (p.0 ++ extra, p.1))
      joined extra none = refl
      joined extra (some (scanners, s)) =
          ap (λ x. some (x, s)) (sym (append_assoc scanners extra old))

  abbrev pub with_scanners : Meta S → Option (List (MetaScanner S) × S) → Option (Meta S × S)
  with_scanners m none = none
  with_scanners m (some (scanners, s)) = some (record m { meta_scanners = scanners }, s)

  -- A rescan drops what was listed and lists for each backend, which is scanned again, at most 16 of
  -- its scanners, the last one first and those of later backends in front; it fails only if the scan
  -- of a backend does.
  pub scanbtnd_rescan-list_scanners :
      (m : Meta S) (s : S) → scanbtnd_rescan m s ≡ with_scanners m (list_scanners m.meta_backends s)
  unfolding scanbtnd_rescan
  scanbtnd_rescan-list_scanners m s =
      rw (rescan_backends-list_scanners m.meta_backends [] s)
        (joined (list_scanners m.meta_backends s))
    where
      joined :
          (o : Option (List (MetaScanner S) × S))
          → (in_front_of [] o >>= λ p. some (record m { meta_scanners = p.0 }, p.1))
            ≡ with_scanners m o
      joined none = refl
      joined (some (scanners, s)) =
          ap (λ x. some (record m { meta_scanners = x }, s)) (append-nil scanners)

  -- The scanner belongs to one of the backends, to which its calls go.
  abbrev pub IsDispatched : List (Module S) → MetaScanner S → Type 0
  IsDispatched backends scanner =
      (i : ℕ) × (backend : Module S) × (get_elem? backends i ≡ some backend)
      × (scanner.meta_info ≡ some backend)

  newest_tagged-length :
      (backend : Module S) (devices : List Scanner)
      → length (newest_tagged backend devices) ≡ length devices
  newest_tagged-length backend [] = refl
  newest_tagged-length backend (dev ∷ devices) = omega (
    arith,
    length-append (newest_tagged backend devices)
        (record { scanner = dev; meta_info = some backend } ∷ []),
    newest_tagged-length backend devices,
  )

  newest_tagged-IsDispatched :
      (backend : Module S) (backends : List (Module S)) (devices : List Scanner)
      → All (IsDispatched (backend ∷ backends)) (newest_tagged backend devices)
  newest_tagged-IsDispatched backend backends [] = tt
  newest_tagged-IsDispatched backend backends (dev ∷ devices) =
      All-append (IsDispatched (backend ∷ backends)) (newest_tagged backend devices)
        (record { scanner = dev; meta_info = some backend } ∷ [])
        (newest_tagged-IsDispatched backend backends devices) ((0, backend, refl, refl), tt)

  later :
      (backend : Module S) (backends : List (Module S)) (scanners : List (MetaScanner S))
      → All (IsDispatched backends) scanners
      → All (IsDispatched (backend ∷ backends)) scanners
  later backend backends [] h = tt
  later backend backends (scanner ∷ scanners) ((i, b, g, e), h) =
      ((suc i, b, g, e), later backend backends scanners h)

  -- What is listed of a scan that succeeds.
  abbrev IsListing : List (Module S) → Option (List (MetaScanner S) × S) → Type 0
  IsListing backends none = Unit {0}
  IsListing backends (some (scanners, s)) =
      (length scanners ≤ 16 * length backends) × All (IsDispatched backends) scanners

  list_scanners-IsListing :
      (backends : List (Module S)) (s : S) → IsListing backends (list_scanners backends s)
  list_scanners-IsListing [] s = (omega arith, tt)
  list_scanners-IsListing (backend ∷ backends) s =
      rescanned (backend.rescan s) (λ s'. list_scanners-IsListing backends s')
    where
      extended :
          (s' : S) (o : Option (List (MetaScanner S) × S))
          → IsListing backends o
          → IsListing (backend ∷ backends) (
              o >>= λ p.
              some (p.0 ++ newest_tagged backend (take 16 (backend.get_supported_devices s')), p.1))
      extended s' none h = tt
      extended s' (some (scanners, s'')) (le, all) =
          let extra = take 16 (backend.get_supported_devices s') in
          (
            omega (
              arith,
              le,
              length-append scanners (newest_tagged backend extra),
              newest_tagged-length backend extra,
              length-take 16 (backend.get_supported_devices s'),
            ),
            All-append (IsDispatched (backend ∷ backends)) scanners (newest_tagged backend extra)
                (later backend backends scanners all)
                (newest_tagged-IsDispatched backend backends extra),
          )

      rescanned :
          (o : Option S)
          → ((s' : S) → IsListing backends (list_scanners backends s'))
          → IsListing (backend ∷ backends) (
              o >>= λ s'. list_scanners backends s' >>= λ p.
              some (p.0 ++ newest_tagged backend (take 16 (backend.get_supported_devices s')), p.1))
      rescanned none ih = tt
      rescanned (some s') ih = extended s' (list_scanners backends s') (ih s')

  -- After a rescan that succeeds each listed scanner belongs to a backend of the meta backend, and
  -- there are at most 16 for each backend.
  pub scanbtnd_rescan-IsDispatched :
      (m : Meta S) (s : S) {m' : Meta S} {s' : S}
      → scanbtnd_rescan m s ≡ some (m', s')
      → (length m'.meta_scanners ≤ 16 * length m.meta_backends)
        × All (IsDispatched m.meta_backends) m'.meta_scanners
  scanbtnd_rescan-IsDispatched m s {m'} {s'} e =
      inverted (list_scanners m.meta_backends s) (list_scanners-IsListing m.meta_backends s)
        (sym (scanbtnd_rescan-list_scanners m s) ∙ e)
    where
      inverted :
          (o : Option (List (MetaScanner S) × S))
          → IsListing m.meta_backends o
          → with_scanners m o ≡ some (m', s')
          → (length m'.meta_scanners ≤ 16 * length m.meta_backends)
            × All (IsDispatched m.meta_backends) m'.meta_scanners
      inverted none h x = cc
      inverted (some (scanners, t)) h x =
          subst
            (λ l. (length l ≤ 16 * length m.meta_backends) × All (IsDispatched m.meta_backends) l)
            (ap Meta.meta_scanners (ap (λ p. p.0) (some-injective _ _ x))) h
