-- ===== src/Sane/Match/Lookup.antt =====
-- What the tables of src/scanbd/sane.c say of an option: the first entry with its number.
use scanbd.Prelude.{
  ℕ, zero, suc, ◌<◌, ◌≡◌, ◌≢◌, ap, inl, inr, Option, none, some, List, [], ◌∷◌, ◌++◌, map, ◌==◌,
  ==_iff, ==_ne, if◌then◌else◌, length, length-map, take, length-take, set, take-set, take-set_end,
  NotIn, Distinct, arith,
}
use scanbd.Sane.Match.Search.{Slot}
use scanbd.Sane.Match.Tables.{IsTable, numbers, count_after}

abbrev head_or : ℕ → List ℕ → ℕ
head_or d [] = d
head_or d (n ∷ ns) = n

abbrev tail_of : List ℕ → List ℕ
tail_of [] = []
tail_of (n ∷ ns) = ns

-- A number that a write leaves in the list is in the list.
set_same_ne : (ns : List ℕ) (i m n : ℕ) → i < length ns → set ns i m ≡ ns → NotIn n ns → m ≢ n
set_same_ne [] i m n h e new = absurd (omega arith)
set_same_ne (x ∷ ns) zero m n h e new = λ q. new.0 (omega (arith, q, ap (head_or 0) e))
set_same_ne (x ∷ ns) (suc i) m n h e new = set_same_ne ns i m n (omega arith) (ap tail_of e) new.1

module _ {ℓ} {A : Type ℓ} (number : A → ℕ) where
  unfoldable pub lookup_number : ℕ → List A → Option A
  lookup_number o [] = none
  lookup_number o (x ∷ xs) = if number x == o then some x else lookup_number o xs

  lookup_number-set :
      (o opt i : ℕ) (v : A) (xs : List A)
      → i < length (map number xs)
      → number v ≡ opt
      → set (map number xs) i opt ≡ map number xs
      → Distinct (map number xs)
      → lookup_number o (set xs i v) ≡ (if opt == o then some v else lookup_number o xs)
  unfolding lookup_number
  lookup_number-set o opt i v [] h e s d = absurd (omega arith)
  lookup_number-set o opt zero v (x ∷ xs) h e s d = ground (arith, ap (head_or 0) s)
  lookup_number-set o opt (suc i) v (x ∷ xs) h e s d = ground (
    arith,
    lookup_number-set o opt i v xs (omega arith) e (ap tail_of s) d.1,
    set_same_ne (map number xs) i opt (number x) (omega arith) (ap tail_of s) d.0,
  )

  lookup_number-snoc :
      (o opt : ℕ) (v : A) (xs : List A)
      → number v ≡ opt
      → NotIn opt (map number xs)
      → lookup_number o (xs ++ v ∷ []) ≡ (if opt == o then some v else lookup_number o xs)
  unfolding lookup_number
  lookup_number-snoc o opt v [] e new = ground arith
  lookup_number-snoc o opt v (x ∷ xs) e new =
      ground (arith, lookup_number-snoc o opt v xs e new.1, new.0)

  -- What an entry at the slot that a search found changes.
  pub lookup-enter :
      (o n count opt : ℕ) (xs : List A) (v : A) {i : ℕ}
      → IsTable number n count xs
      → number v ≡ opt
      → i < n
      → Slot count (numbers number count xs) opt i
      → Distinct (numbers number count xs)
      → lookup_number o (take (count_after i count) (set xs i v))
        ≡ (if opt == o then some v else lookup_number o (take count xs))
  lookup-enter o n count opt xs v {i} t e room (inl (lt, same)) d =
      rw (==_ne i count (omega arith), take-set count i xs v)
        (lookup_number-set o opt i v (take count xs) inside e same d)
    where
      inside : i < length (numbers number count xs)
      inside =
          omega (arith, t.array, t.used, length-map number (take count xs), length-take count xs)
  lookup-enter o n count opt xs v {i} t e room (inr (end, new)) d =
      rw ((==_iff i count).1 end, end, take-set_end count xs v (omega (arith, t.array)))
        (lookup_number-snoc o opt v (take count xs) e new)
