-- ===== src/Sane/Value/Hash/Poly.antt =====
-- The value of `hash` of src/scanbd/sane.c in closed form.
use scanbd.Prelude.{
  ℕ, ◌+◌, ◌*◌, ◌%◌, ◌/◌, ◌^◌, ◌<◌, ◌≡◌, sym, ap, ◌∙◌, [], ◌∷◌, CString, ulong_mod, length, arith,
}
use native.Mathlib.Nat.{add-mul-mod_self_left, div-add-mod, add-mul, mul_assoc, mul_comm, pow-suc}
use scanbd.Sane.Value.Hash.{char_add, hash_step, hash_from, hash, poly}

hash_step_lem : (h c : ℕ) → hash_step h c ≡ (h * 33 + char_add c) % ulong_mod
unfolding hash_step
hash_step_lem h c = omega arith

hash_step_bound : (h c : ℕ) → hash_step h c < ulong_mod
unfolding hash_step
hash_step_bound h c = omega arith

-- A remainder in a product and a sum.
mod_mul : (x k q : ℕ) → (x % ulong_mod * k + q) % ulong_mod ≡ (x * k + q) % ulong_mod
mod_mul x k q =
    sym (add-mul-mod_self_left (x % ulong_mod * k + q) ulong_mod (x / ulong_mod * k))
    ∙ ap (λ m. m % ulong_mod) whole
  where
    parts : x * k ≡ ulong_mod * (x / ulong_mod) * k + x % ulong_mod * k
    parts =
        ap (λ m. m * k) (sym (div-add-mod x ulong_mod))
        ∙ add-mul (ulong_mod * (x / ulong_mod)) (x % ulong_mod) k

    whole : x % ulong_mod * k + q + ulong_mod * (x / ulong_mod * k) ≡ x * k + q
    whole = omega (arith, parts, mul_assoc ulong_mod (x / ulong_mod) k)

-- Horner's rule, modulo 2 ^ 64.
hash_from-poly :
    (h : ℕ) (s : CString) → h < ulong_mod → hash_from h s ≡ (h * 33 ^ length s + poly s) % ulong_mod
unfolding hash_from
hash_from-poly h [] lt = omega arith
hash_from-poly h (c ∷ s) lt =
    let step : hash_step h c ≡ (h * 33 + char_add c) % ulong_mod = hash_step_lem h c in
    hash_from-poly (hash_step h c) s (hash_step_bound h c)
    ∙ (ap (λ m. (m * 33 ^ length s + poly s) % ulong_mod) step
        ∙ (mod_mul (h * 33 + char_add c) (33 ^ length s) (poly s) ∙ ap (λ m. m % ulong_mod) spread))
  where
    spread :
        (h * 33 + char_add c) * 33 ^ length s + poly s
        ≡ h * 33 ^ length (c ∷ s) + (char_add c * 33 ^ length s + poly s)
    spread = omega (
      arith,
      add-mul (h * 33) (char_add c) (33 ^ length s),
      mul_assoc h 33 (33 ^ length s),
      ap (λ m. h * m) (mul_comm 33 (33 ^ length s)),
      ap (λ m. h * m) (pow-suc 33 (length s)),
    )

-- The hash of a string is its polynomial in 33, started from 5381 and taken modulo 2 ^ 64: the
-- wrap-around in each round of the loop comes to one at the end.
pub hash-poly : (s : CString) → hash s ≡ (5381 * 33 ^ length s + poly s) % ulong_mod
unfolding hash
hash-poly s = hash_from-poly 5381 s (omega arith)
