-- ===== src/Scanbuttond/Control/Pressed.antt =====
-- Which button hp3900.c and genesys.c in src/scanbuttond/backends read from a register.
use scanbd.Prelude.{
  ℕ, zero, suc, ◌+◌, ◌-◌, ◌*◌, ◌%◌, ◌^◌, ◌≤◌, ◌<◌, ◌≡◌, ◌⊎◌, refl, sym, ap, ◌∙◌, inl, inr, ◌&&◌,
  Bool, true, false, some, List, [], ◌∷◌, Bool-cases, arith, get_elem?,
}
use mathlib.Core.Option.{some-injective}
use native.Mathlib.Nat.{pow-suc}
use scanbd.Scanbuttond.Buttons.{bit}
use scanbd.Scanbuttond.Control.{first_clear, hp3900_button, genesys_button, button_map_lide60}

-- The bits from `c` on, `k` of them, are set.
abbrev pub all_set : ℕ → ℕ → ℕ → Bool
all_set zero c b = true
all_set (suc k) c b = bit (2 ^ c) b && all_set k (suc c) b

-- The number of the lowest of `k` bits that is clear, counted from 1, or 0 if there is none.
abbrev IsLowest : ℕ → ℕ → ℕ → ℕ → Type 0
IsLowest k c b r =
    ((r ≡ 0) × (all_set k c b ≡ true))
    ⊎ ((i : ℕ) × (r ≡ suc (c + i))
        × (i < k)
        × (bit (2 ^ (c + i)) b ≡ false)
        × (all_set i c b ≡ true))

both_set : (a b : Bool) → a ≡ true → b ≡ true → (a && b) ≡ true
both_set a b h k = ground arith

-- The step over a bit that is set.
set_step :
    (k c b r r' : ℕ)
    → bit (2 ^ c) b ≡ true
    → r' ≡ r
    → IsLowest k (suc c) b r
    → IsLowest (suc k) c b r'
set_step k c b r r' set same (inl (zero_r, all)) =
    inl (same ∙ zero_r, both_set (bit (2 ^ c) b) (all_set k (suc c) b) set all)
set_step k c b r r' set same (inr (i, e, lt, clear, all)) =
    let next : suc c + i ≡ c + suc i = omega arith in
    inr (
      suc i,
      same ∙ (e ∙ ap suc next),
      omega (arith, lt),
      ap (λ n. bit (2 ^ n) b) (sym next) ∙ clear,
      both_set (bit (2 ^ c) b) (all_set i (suc c) b) set all,
    )

first_clear-IsLowest : (k c mask b : ℕ) → mask ≡ 2 ^ c → IsLowest k c b (first_clear k c mask b)
unfolding first_clear
first_clear-IsLowest zero c mask b m = inl (refl, refl)
first_clear-IsLowest (suc k) c mask b m = elim (Bool-cases (bit mask b)) [
  | inr clear ↦
      let same : c + 0 ≡ c = omega arith in
      let power : 2 ^ (c + 0) ≡ mask = ap (λ n. 2 ^ n) same ∙ sym m in
      inr (0, rw clear (ap suc (sym same)), omega arith, ap (λ x. bit x b) power ∙ clear, refl)
  | inl set ↦
      set_step k c b (first_clear k (suc c) (mask * 2) b) _ (ap (λ x. bit x b) (sym m) ∙ set)
        (rw set refl)
        (first_clear-IsLowest k (suc c) (mask * 2) b (ap (λ n. n * 2) m ∙ sym (pow-suc 2 c)))
]

-- hp3900.c reads the lowest of the scanner's bits that is clear in the register, counted from 1, and
-- 0 exactly if all of them are set.
pub hp3900_button-IsLowest :
    (n b : ℕ)
    → ((hp3900_button n b ≡ 0) × (all_set n 0 b ≡ true))
      ⊎ ((i : ℕ) × (hp3900_button n b ≡ suc i)
          × (i < n)
          × (bit (2 ^ i) b ≡ false)
          × (all_set i 0 b ≡ true))
hp3900_button-IsLowest n b = from_zero (first_clear-IsLowest n 0 1 b (omega arith))
  where
    from_zero :
        IsLowest n 0 b (hp3900_button n b)
        → ((hp3900_button n b ≡ 0) × (all_set n 0 b ≡ true))
          ⊎ ((i : ℕ) × (hp3900_button n b ≡ suc i)
              × (i < n)
              × (bit (2 ^ i) b ≡ false)
              × (all_set i 0 b ≡ true))
    from_zero (inl h) = inl h
    from_zero (inr (i, e, lt, clear, all)) =
        let same : 0 + i ≡ i = omega arith in
        inr (i, e ∙ ap suc same, lt, ap (λ m. bit (2 ^ m) b) (sym same) ∙ clear, all)

-- The combination of buttons that a number of genesys.c stands for.
abbrev combinations : List ℕ
combinations = 0 ∷ 8 ∷ 1 ∷ 2 ∷ 4 ∷ 3 ∷ 5 ∷ 6 ∷ 7 ∷ 9 ∷ 10 ∷ 11 ∷ 12 ∷ 13 ∷ 14 ∷ 15 ∷ []

combination_of :
    (i : ℕ)
    → i < 16
    → (k : ℕ) × (get_elem? button_map_lide60 i ≡ some k)
      × (k ≤ 15)
      × (get_elem? combinations k ≡ some i)
combination_of zero h = (0, refl, omega arith, refl)
combination_of (suc zero) h = (2, refl, omega arith, refl)
combination_of (suc (suc zero)) h = (3, refl, omega arith, refl)
combination_of (suc (suc (suc zero))) h = (5, refl, omega arith, refl)
combination_of (suc (suc (suc (suc zero)))) h = (4, refl, omega arith, refl)
combination_of (suc (suc (suc (suc (suc zero))))) h = (6, refl, omega arith, refl)
combination_of (suc (suc (suc (suc (suc (suc zero)))))) h = (7, refl, omega arith, refl)
combination_of (suc (suc (suc (suc (suc (suc (suc zero))))))) h = (8, refl, omega arith, refl)
combination_of (suc (suc (suc (suc (suc (suc (suc (suc zero)))))))) h = (1, refl, omega arith, refl)
combination_of (suc (suc (suc (suc (suc (suc (suc (suc (suc zero))))))))) h =
    (9, refl, omega arith, refl)
combination_of (suc (suc (suc (suc (suc (suc (suc (suc (suc (suc zero)))))))))) h =
    (10, refl, omega arith, refl)
combination_of (suc (suc (suc (suc (suc (suc (suc (suc (suc (suc (suc zero))))))))))) h =
    (11, refl, omega arith, refl)
combination_of (suc (suc (suc (suc (suc (suc (suc (suc (suc (suc (suc (suc zero)))))))))))) h =
    (12, refl, omega arith, refl)
combination_of (suc (suc (suc (suc (suc (suc (suc (suc (suc (suc (suc (suc (suc zero)))))))))))))
      h =
    (13, refl, omega arith, refl)
combination_of
      (suc (suc (suc (suc (suc (suc (suc (suc (suc (suc (suc (suc (suc (suc zero)))))))))))))) h =
    (14, refl, omega arith, refl)
combination_of
      (suc (suc (suc (suc (suc (suc (suc (suc (suc (suc (suc (suc (suc (suc (suc zero)))))))))))))))
      h =
    (15, refl, omega arith, refl)
combination_of
      (suc
        (suc (suc (suc (suc (suc (suc (suc (suc (suc (suc (suc (suc (suc (suc (suc n))))))))))))))))
      h =
    absurd (omega (arith, h))

-- genesys.c reads a number up to 15 from every register, and different combinations of its four
-- buttons give different numbers: registers with the same number agree in their low four bits.
pub genesys_button-combinations :
    (x y : ℕ)
    → genesys_button x ≡ genesys_button y
    → (k : ℕ) × (genesys_button x ≡ some k) × (k ≤ 15) × (x % 16 ≡ y % 16)
unfolding genesys_button
genesys_button-combinations x y same =
    let (k, e, le, c) = combination_of (15 - x % 16) (omega arith) in
    let (k', e', _, c') = combination_of (15 - y % 16) (omega arith) in
    let equal : k ≡ k' = some-injective _ _ (sym e ∙ (same ∙ e')) in
    let index : 15 - x % 16 ≡ 15 - y % 16 =
      some-injective _ _ (sym c ∙ (ap (get_elem? combinations) equal ∙ c')) in
    (k, e, le, omega (arith, index))
