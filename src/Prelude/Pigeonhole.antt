-- ===== src/Prelude/Pigeonhole.antt =====
-- Lists of distinct numbers, and the pigeonhole principle.
use Prim.Native.Nat.{ℕ, zero, suc, ◌<◌, ◌≤◌}
use mathlib.Core.Path.{◌≡◌, refl}
use mathlib.Core.Logic.{◌≢◌}
use mathlib.Core.List.{List, [], ◌∷◌, ◌++◌}
use native.Mathlib.Omega.{arith}
use scanbd.Prelude.Tests.{◌==◌, if◌then◌else◌}
use scanbd.Prelude.Lists.{length, All, All-append}

abbrev pub NotIn : ℕ → List ℕ → Type 0
NotIn n = All (λ m. m ≢ n)

abbrev pub Distinct : List ℕ → Type 0
Distinct [] = Unit {0}
Distinct (x ∷ xs) = NotIn x xs × Distinct xs

pub Distinct-snoc : (xs : List ℕ) (n : ℕ) → Distinct xs → NotIn n xs → Distinct (xs ++ n ∷ [])
Distinct-snoc [] n d h = (tt, tt)
Distinct-snoc (x ∷ xs) n d h = (
  All-append (λ m. m ≢ x) xs (n ∷ []) d.0 ((λ e. h.0 (omega arith)), tt),
  Distinct-snoc xs n d.1 h.1,
)

without : ℕ → List ℕ → List ℕ
without n [] = []
without n (x ∷ xs) = let rest = without n xs in if x == n then rest else x ∷ rest

without_id : (n : ℕ) (xs : List ℕ) → NotIn n xs → without n xs ≡ xs
unfolding without
without_id n [] h = refl
without_id n (x ∷ xs) h = ground (arith, without_id n xs h.1, h.0)

All-without {κ} : (P : ℕ → Type κ) (n : ℕ) (xs : List ℕ) → All P xs → All P (without n xs)
unfolding without
All-without P n [] h = tt
All-without P n (x ∷ xs) h = ground (arith, All-without P n xs h.1, h.0)

Distinct-without : (n : ℕ) (xs : List ℕ) → Distinct xs → Distinct (without n xs)
unfolding without
Distinct-without n [] h = tt
Distinct-without n (x ∷ xs) h =
    ground (arith, Distinct-without n xs h.1, All-without (λ m. m ≢ x) n xs h.0)

length-without : (n : ℕ) (xs : List ℕ) → Distinct xs → length xs ≤ suc (length (without n xs))
unfolding without
length-without n [] h = omega arith
length-without n (x ∷ xs) h = ground (arith, length-without n xs h.1, without_id n xs, h.0)

All-below : (b : ℕ) (xs : List ℕ) → All (λ m. m < suc b) xs → All (λ m. m < b) (without b xs)
unfolding without
All-below b [] h = tt
All-below b (x ∷ xs) h = ground (arith, All-below b xs h.1, h.0)

-- Distinct numbers below a bound are at most as many as the bound.
pub pigeonhole : (b : ℕ) (xs : List ℕ) → Distinct xs → All (λ m. m < b) xs → length xs ≤ b
pigeonhole zero [] d h = omega arith
pigeonhole zero (x ∷ xs) d h = absurd (omega (arith, h.0))
pigeonhole (suc b) xs d h = omega (
  arith,
  length-without b xs d,
  pigeonhole b (without b xs) (Distinct-without b xs d) (All-below b xs h),
)
