-- ===== src/Scanbuttond/Meta/Lifetime.antt =====
-- The backends that the meta backend, src/scanbuttond/backends/meta.c, starts and ends.
use scanbd.Prelude.{
  ℕ, zero, suc, ◌+◌, ◌<◌, ◌≡◌, refl, ap, ◌∙◌, inl, inr, Bool-cases, Option, none, some, List, [],
  ◌∷◌, length, All, arith, CString, str_eq, ℤ, pos, negsuc,
}
use scanbd.Scanbuttond.Libusbi.Calls.{Users, add_one, sub_one, libusb_init, libusb_exit}
use scanbd.Scanbuttond.Meta.{
  Module, Meta, backend_name, Loader, meta_attach_backend, detach_backends, meta_strip_newline,
  is_empty, meta_attach_scanners, attach_loaded, load_line, read_lines, opened_config,
  scanbtnd_init, scanbtnd_exit,
}

-- A backend that counts as running from its start to its end, which both succeed.
pub record IsCounted {S : Type 0} (alive : S → ℕ) (backend : Module S) : Type 0 where
  pub starts : (s : S) → (s' : S) × (backend.init s ≡ some s') × (alive s' ≡ suc (alive s))
  pub ends :
      (s : S) → (s' : S) × (backend.exit s ≡ some s') × (0 < alive s → suc (alive s') ≡ alive s)

-- As many backends run, beyond `base`, as are attached.
abbrev Runs : {S : Type 0} → (S → ℕ) → ℕ → Users → Meta S → S → Type 0
Runs alive base users m s =
    (alive s ≡ base + length m.meta_backends)
    × All (IsCounted alive) m.meta_backends
    × (m.users ≡ users)

abbrev Continues : {S : Type 0} → (S → ℕ) → ℕ → Users → Option (Meta S × S) → Type 0
Continues {S} alive base users result =
    (m : Meta S) × (s : S) × (result ≡ some (m, s)) × Runs alive base users m s

sub_one-add_one : (n : ℤ) → sub_one (add_one n) ≡ n
unfolding sub_one add_one
sub_one-add_one (pos n) = refl
sub_one-add_one (negsuc zero) = refl
sub_one-add_one (negsuc (suc n)) = refl

module _ {S : Type 0} (load : Loader S) (alive : S → ℕ)
    (counted : (name : CString) (backend : Module S)
      → load name ≡ some backend
      → IsCounted alive backend) where
  load_line-Runs :
      (base : ℕ) (users : Users) (backend : Module S) (m : Meta S) (s : S)
      → IsCounted alive backend
      → Runs alive base users m s
      → Continues alive base users (load_line (some backend) m s)
  unfolding load_line meta_attach_backend attach_loaded
  load_line-Runs base users backend m s c (n, all, same) =
      elim (Bool-cases (str_eq backend.name backend_name)) [
        | inl refused ↦ (m, s, rw refused refl, (n, all, same))
        | inr accepted ↦
            let (s', e, one) = c.starts s in
            (
              record {
                meta_scanners =
                    meta_attach_scanners (backend.get_supported_devices s') backend m.meta_scanners;
                meta_backends = backend ∷ m.meta_backends;
                users = m.users;
              },
              s',
              rw (accepted, e) refl,
              (omega (arith, one, n), (c, all), same),
            )
      ]

  one_line :
      (base : ℕ) (users : Users) (name : CString) (m : Meta S) (s : S) (o : Option (Module S))
      → load name ≡ o
      → Runs alive base users m s
      → Continues alive base users (load_line (load name) m s)
  unfolding load_line
  one_line base users name m s none e h = (m, s, rw e refl, h)
  one_line base users name m s (some backend) e h =
      let (m', s', e', h') = load_line-Runs base users backend m s (counted name backend e) h in
      (m', s', rw e e', h')

  read_lines-Runs :
      (base : ℕ) (users : Users) (lines : List CString) (m : Meta S) (s : S)
      → Runs alive base users m s
      → Continues alive base users (read_lines load lines m s)
  unfolding read_lines
  read_lines-Runs base users [] m s h = (m, s, refl, h)
  read_lines-Runs base users (line ∷ lines) m s h =
      let lib = meta_strip_newline line in
      elim (Bool-cases (is_empty lib)) [
        | inl e ↦
            let (m', s', x, h') = read_lines-Runs base users lines m s h in (m', s', rw e x, h')
        | inr e ↦
            let (m', s', x, h') = one_line base users lib m s (load lib) refl h in
            let (m'', s'', x', h'') = read_lines-Runs base users lines m' s' h' in
            (m'', s'', rw (e, x) x', h'')
      ]

  detach_backends-ends :
      (base : ℕ) (backends : List (Module S)) (s : S)
      → alive s ≡ base + length backends
      → All (IsCounted alive) backends
      → (s' : S) × (detach_backends backends s ≡ some s') × (alive s' ≡ base)
  unfolding detach_backends
  detach_backends-ends base [] s n all = (s, refl, omega (arith, n))
  detach_backends-ends base (backend ∷ backends) s n (c, all) =
      let (s', e, one) = c.ends s in
      let left = one (omega (arith, n)) in
      let (s'', e', n') = detach_backends-ends base backends s' (omega (arith, left, n)) all in
      (s'', rw e e', n')

  -- The start of the meta backend with a configuration file succeeds and leaves one more running
  -- backend for each attached one; its end ends each of them and nothing else, and gives up its use
  -- of libusb, if a backend that is loaded can be started and ended.
  pub scanbtnd_exit-scanbtnd_init :
      (lines : List CString) (users : Users) (s : S)
      → (m m' : Meta S) × (s' s'' : S) × (scanbtnd_init load (some lines) users s
          ≡ some (pos 0, m, s'))
        × (alive s' ≡ alive s + length m.meta_backends)
        × (scanbtnd_exit m s' ≡ some (m', s''))
        × (alive s'' ≡ alive s)
        × (m'.users.invocation_count ≡ users.invocation_count)
  unfolding scanbtnd_init opened_config scanbtnd_exit libusb_init libusb_exit
  scanbtnd_exit-scanbtnd_init lines users s =
      let before : Meta S = record {
        meta_scanners = [];
        meta_backends = [];
        users = libusb_init users;
      } in
      let (m, s', e, (n, all, same)) =
        read_lines-Runs (alive s) (libusb_init users) lines before s (omega arith, tt, refl) in
      let (s'', e', n') = detach_backends-ends (alive s) m.meta_backends s' n all in
      (
        m,
        record { meta_scanners = []; meta_backends = []; users = libusb_exit m.users },
        s',
        s'',
        rw e refl,
        n,
        rw e' refl,
        n',
        ap (λ u. sub_one u.invocation_count) same ∙ sub_one-add_one users.invocation_count,
      )
