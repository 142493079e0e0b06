-- ===== src/Sane/Match/Tables.antt =====
-- The arrays st->opts and st->functions of src/scanbd/sane.c: one entry for each option of the
-- device, the first `count` of them in use, each with the number of its option.
use scanbd.Prelude.{
  ℕ, zero, suc, ◌≤◌, ◌<◌, ◌≡◌, refl, ap, ◌∙◌, inl, inr, List, [], ◌∷◌, ◌++◌, map, ◌==◌, ==_iff,
  ==_ne, Bool-cases, if◌then◌else◌, length, take, length-take, length-map, set, length-set,
  take-set, take-set_end, All, All-append, All-set, NotIn, Distinct, Distinct-snoc, pigeonhole,
  arith,
}
use mathlib.Core.List.{map-append}
use scanbd.Sane.Match.Search.{Slot}

-- The numbers of the options that a device has besides option 0.
abbrev pub InRange : ℕ → ℕ → Type 0
InRange n m = (0 < m) × (m < n)

pub Slot-le : (k opt : ℕ) (ns : List ℕ) {i : ℕ} → Slot k ns opt i → i ≤ k
Slot-le k opt ns (inl (lt, _)) = omega arith
Slot-le k opt ns (inr (end, _)) = omega arith

-- Distinct numbers of options leave room for one more.
pub numbers_room :
    (n opt : ℕ) (ns : List ℕ)
    → All (InRange n) ns
    → Distinct ns
    → NotIn opt ns
    → InRange n opt
    → suc (suc (length ns)) ≤ n
numbers_room n opt ns r d new o =
    pigeonhole n (opt ∷ 0 ∷ ns) (((λ e. omega (arith, e, o)), new), (positive ns r, d))
      (o.1, (omega (arith, o), below ns r))
  where
    positive : (ms : List ℕ) → All (InRange n) ms → NotIn 0 ms
    positive [] h = tt
    positive (m ∷ ms) h = ((λ e. omega (arith, h.0, e)), positive ms h.1)

    below : (ms : List ℕ) → All (InRange n) ms → All (λ m. m < n) ms
    below [] h = tt
    below (m ∷ ms) h = (h.0.1, below ms h.1)

-- The number of entries in use after an entry at `i`.
abbrev pub count_after : ℕ → ℕ → ℕ
count_after i count = if i == count then suc count else count

module _ {ℓ} {A : Type ℓ} (number : A → ℕ) where
  abbrev pub numbers : ℕ → List A → List ℕ
  numbers count xs = map number (take count xs)

  -- What holds of a table for the options of a device with `n` options.
  pub record IsTable (n count : ℕ) (xs : List A) : Type 0 where
    pub array : length xs ≡ n
    pub used : count ≤ n
    pub ranged : All (InRange n) (numbers count xs)

  pub length-numbers :
      (n count : ℕ) (xs : List A) → IsTable n count xs → length (numbers count xs) ≡ count
  length-numbers n count xs t =
      omega (arith, t.array, t.used, length-map number (take count xs), length-take count xs)

  map-set :
      (xs : List A) (i : ℕ) (v : A) → map number (set xs i v) ≡ set (map number xs) i (number v)
  map-set [] i v = refl
  map-set (x ∷ xs) zero v = refl
  map-set (x ∷ xs) (suc i) v = ap (◌∷◌ (number x)) (map-set xs i v)

  -- An entry in place of another.
  pub numbers-set :
      (count i : ℕ) (xs : List A) (v : A)
      → numbers count (set xs i v) ≡ set (numbers count xs) i (number v)
  numbers-set count i xs v = ap (map number) (take-set count i xs v) ∙ map-set (take count xs) i v

  -- An entry behind the used ones.
  pub numbers-set_end :
      (count : ℕ) (xs : List A) (v : A)
      → count < length xs
      → numbers (suc count) (set xs count v) ≡ numbers count xs ++ number v ∷ []
  numbers-set_end count xs v h =
      ap (map number) (take-set_end count xs v h) ∙ map-append number (take count xs) (v ∷ [])

  -- Behind the used entries there is room for an option that has none.
  pub Slot-room :
      (n count opt : ℕ) (xs : List A) {i : ℕ}
      → IsTable n count xs
      → Distinct (numbers count xs)
      → InRange n opt
      → Slot count (numbers count xs) opt i
      → i < n
  Slot-room n count opt xs t d o (inl (lt, _)) = omega (arith, lt, t.used)
  Slot-room n count opt xs t d o (inr (end, new)) = omega (
    arith,
    end,
    length-numbers n count xs t,
    numbers_room n opt (numbers count xs) t.ranged d new o,
  )

  -- The table after an entry at the slot that a search found.
  pub enter-IsTable :
      (n count opt : ℕ) (xs : List A) (v : A) {i : ℕ}
      → IsTable n count xs
      → number v ≡ opt
      → InRange n opt
      → i < n
      → i ≤ count
      → IsTable n (count_after i count) (set xs i v)
  enter-IsTable n count opt xs v {i} t e o room le = elim (Bool-cases (i == count)) [
    | inl end ↦ rw end (at_end ((==_iff _ _).0 end))
    | inr inside ↦ rw inside (record {
      array = length-set xs i v ∙ t.array;
      used = t.used;
      ranged =
          rw (numbers-set count i xs v)
            (All-set (InRange n) (numbers count xs) i (number v) (rw e o) t.ranged);
    })
  ]
    where
      at_end : i ≡ count → IsTable n (suc count) (set xs i v)
      at_end c = record {
        array = length-set xs i v ∙ t.array;
        used = omega (arith, c, room);
        ranged =
            rw (c, numbers-set_end count xs v (omega (arith, c, room, t.array)))
              (All-append (InRange n) (numbers count xs) (number v ∷ []) t.ranged (rw e o, tt));
      }

  -- The numbers stay distinct, wherever the array ends behind the slot.
  pub Slot-Distinct :
      (count opt : ℕ) (xs : List A) (v : A) {i : ℕ}
      → number v ≡ opt
      → i < length xs
      → Slot count (numbers count xs) opt i
      → Distinct (numbers count xs)
      → Distinct (numbers (count_after i count) (set xs i v))
  Slot-Distinct count opt xs v {i} e room (inl (lt, same)) d =
      rw (==_ne i count (omega arith), numbers-set count i xs v, e, same) d
  Slot-Distinct count opt xs v {i} e room (inr (end, new)) d =
      rw ((==_iff i count).1 end, end, numbers-set_end count xs v (omega (arith, room, end)), e)
        (Distinct-snoc (numbers count xs) opt d new)

  pub enter-Distinct :
      (n count opt : ℕ) (xs : List A) (v : A) {i : ℕ}
      → IsTable n count xs
      → number v ≡ opt
      → i < n
      → Slot count (numbers count xs) opt i
      → Distinct (numbers count xs)
      → Distinct (numbers (count_after i count) (set xs i v))
  enter-Distinct n count opt xs v t e room slot d =
      Slot-Distinct count opt xs v e (omega (arith, room, t.array)) slot d

  -- A property of the entries in use.
  pub All-enter {κ} :
      (P : A → Type κ) (count : ℕ) (xs : List A) (v : A) {i : ℕ}
      → i < length xs
      → i ≤ count
      → P v
      → All P (take count xs)
      → All P (take (count_after i count) (set xs i v))
  All-enter P count xs v {i} room le p h = elim (Bool-cases (i == count)) [
    | inl end ↦ rw end (at_end ((==_iff _ _).0 end))
    | inr inside ↦ rw (inside, take-set count i xs v) (All-set P (take count xs) i v p h)
  ]
    where
      at_end : i ≡ count → All P (take (suc count) (set xs i v))
      at_end c =
          rw (c, take-set_end count xs v (omega (arith, c, room)))
            (All-append P (take count xs) (v ∷ []) h (p, tt))
