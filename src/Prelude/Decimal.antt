-- ===== src/Prelude/Decimal.antt =====
-- printf's `%lu`: the decimal digits of a number, most significant first.
use Prim.Native.Nat.{ℕ, zero, suc, ◌+◌, ◌-◌, ◌*◌, ◌/◌, ◌%◌, ◌^◌, ◌<◌}
use mathlib.Core.Path.{◌≡◌, refl, ap}
use mathlib.Core.Logic.{inl, inr}
use mathlib.Core.List.{List, [], ◌∷◌}
use native.Mathlib.Omega.{arith}
use native.Mathlib.Nat.{pow-suc}
use scanbd.Prelude.Tests.{ltb, if◌then◌else◌, Bool-cases}

-- The digits of a number below 10 ^ fuel, put in front of `rest`.
unfoldable pub digits_from : ℕ → ℕ → List ℕ → List ℕ
digits_from zero n rest = rest
digits_from (suc fuel) n rest =
    let digit = n % 10 + 48 in
    let more = digits_from fuel (n / 10) (digit ∷ rest) in if ltb n 10 then digit ∷ rest else more

-- An `unsigned long` has at most 20 digits.
unfoldable pub decimal : ℕ → List ℕ
unfolding digits_from
decimal n = digits_from 20 n []

-- The number that digits stand for, as strtoul reads them.
abbrev pub read_digits : ℕ → List ℕ → ℕ
read_digits acc [] = acc
read_digits acc (c ∷ s) = read_digits (acc * 10 + c - 48) s

digits_from-read :
    (fuel n : ℕ) (rest : List ℕ)
    → n < 10 ^ fuel
    → read_digits 0 (digits_from fuel n rest) ≡ read_digits n rest
unfolding digits_from
digits_from-read zero n rest h = let none_left : n ≡ 0 = omega (arith, h) in rw none_left refl
digits_from-read (suc fuel) n rest h = elim (Bool-cases (ltb n 10)) [
  | inl small ↦ rw small (ap (λ m. read_digits m rest) (ground (arith, small)))
  | inr large ↦
      let below : n / 10 < 10 ^ fuel = omega (arith, h, pow-suc 10 fuel) in
      let same : n / 10 * 10 + (n % 10 + 48) - 48 ≡ n = omega arith in
      rw (large, digits_from-read fuel (n / 10) ((n % 10 + 48) ∷ rest) below, same) refl
]

-- Reading back what `%lu` prints.
pub decimal-read : (n : ℕ) → n < 18446744073709551616 → read_digits 0 (decimal n) ≡ n
unfolding decimal
decimal-read n h = digits_from-read 20 n [] (omega arith)
