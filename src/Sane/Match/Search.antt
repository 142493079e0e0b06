-- ===== src/Sane/Match/Search.antt =====
-- The loops of src/scanbd/sane.c that look for an option number in the used part of a table, and
-- the tests by which a configured filter selects an option of the device.
use scanbd.Prelude.{
  ℕ, zero, suc, ◌+◌, ◌≤◌, ◌<◌, ◌≡◌, refl, ap, ◌⊎◌, inl, inr, Bool, ◌||◌, Option, none, some, List,
  [], ◌∷◌, map, CString, ◌==◌, ==_iff, ==_false, if◌then◌else◌, Bool-cases, take, length, set,
  NotIn, arith,
}
use scanbd.Sane.Types.{Descriptor, Regex}
use scanbd.Sane.Value.Read.{is_numerical, is_string}

-- The descriptor of an option that passes every test of the inner loop, the filter's last.
unfoldable pub candidate : Regex → CString → Option Descriptor → Option Descriptor
candidate re filter none = none
candidate re filter (some odesc) =
    if odesc.active
    then (elim odesc.name [
      | none ↦ none
      | some name ↦
          if is_numerical odesc.type || is_string odesc.type
          then (if re.matches filter name then some odesc else none)
          else none
    ])
    else none

pub candidate-type :
    (re : Regex) (filter : CString) (odesc? : Option Descriptor) {odesc : Descriptor}
    → candidate re filter odesc? ≡ some odesc
    → (odesc? ≡ some odesc) × ((is_numerical odesc.type || is_string odesc.type) ≡ Bool.true)
unfolding candidate
candidate-type re filter none h = ground arith
candidate-type re filter (some o) h = ground arith

-- Where the search of `k` entries ends: at an entry of that number, or behind them all.
abbrev pub Slot : ℕ → List ℕ → ℕ → ℕ → Type 0
Slot k ns opt i = ((i < k) × (set ns i opt ≡ ns)) ⊎ ((i ≡ k) × NotIn opt ns)

module _ {ℓ} {A : Type ℓ} (number : A → ℕ) where
  -- for (n = ...; n < count; n += 1) { if (xs[n].number == opt) break; }, with the rounds left.
  unfoldable pub find_number : ℕ → List A → ℕ → ℕ → Option ℕ
  find_number zero xs opt n = some n
  find_number (suc k) [] opt n = none
  find_number (suc k) (x ∷ xs) opt n =
      let rest = find_number k xs opt (suc n) in if number x == opt then some n else rest

  pub find_number-Slot :
      (k : ℕ) (xs : List A) (opt n : ℕ)
      → k ≤ length xs
      → (i : ℕ) × (find_number k xs opt n ≡ some (n + i)) × Slot k (map number (take k xs)) opt i
  unfolding find_number
  find_number-Slot zero xs opt n h = (0, ap some (omega arith), inr (refl, tt))
  find_number-Slot (suc k) [] opt n h = absurd (omega arith)
  find_number-Slot (suc k) (x ∷ xs) opt n h = elim (Bool-cases (number x == opt)) [
    | inl e ↦ (
      0,
      rw e (ap some (omega arith)),
      inl (omega arith, ap (λ m. m ∷ map number (take k xs)) (omega (arith, (==_iff _ _).0 e))),
    )
    | inr e ↦
        let (i, found, slot) = find_number-Slot k xs opt (suc n) (omega arith) in
        (suc i, rw (e, found) (ap some (omega arith)), next e slot)
  ]
    where
      next :
          {i : ℕ}
          → (number x == opt) ≡ Bool.false
          → Slot k (map number (take k xs)) opt i
          → Slot (suc k) (number x ∷ map number (take k xs)) opt (suc i)
      next e (inl (lt, same)) = inl (omega arith, ap (◌∷◌ (number x)) same)
      next e (inr (end, new)) = inr (ap suc end, (==_false _ _ e, new))

  -- The same for a search from the first entry on.
  pub find_number-first :
      (k : ℕ) (xs : List A) (opt : ℕ)
      → k ≤ length xs
      → (i : ℕ) × (find_number k xs opt 0 ≡ some i) × Slot k (map number (take k xs)) opt i
  find_number-first k xs opt h =
      let (i, found, slot) = find_number-Slot k xs opt 0 h in
      let same : 0 + i ≡ i = omega arith in (i, rw same at found, slot)
