-- ===== src/Sane/Value/Hash.antt =====
-- `hash` of src/scanbd/sane.c, over `unsigned long` of 64 bits and a signed `char`.
pub mod Poly
use scanbd.Prelude.{
  ℕ, ◌+◌, ◌-◌, ◌*◌, ◌%◌, ◌^◌, [], ◌∷◌, CString, ulong_mod, ltb, if◌then◌else◌, length,
}

-- What adding the byte, read as a signed char, adds to an unsigned long.
abbrev pub char_add : ℕ → ℕ
char_add c = if ltb c 128 then c else ulong_mod + c - 256

-- hash = ((hash << 5) + hash) + c
unfoldable pub hash_step : ℕ → ℕ → ℕ
hash_step h c = ((h * 32) % ulong_mod + h + char_add c) % ulong_mod

-- The loop of `hash` from a state of its accumulator.
unfoldable pub hash_from : ℕ → CString → ℕ
unfolding hash_step
hash_from h [] = h
hash_from h (c ∷ s) = hash_from (hash_step h c) s

unfoldable pub hash : CString → ℕ
unfolding hash_from
hash s = hash_from 5381 s

-- The polynomial that the loop evaluates, without any wrap-around.
abbrev pub poly : CString → ℕ
poly [] = 0
poly (c ∷ s) = char_add c * 33 ^ length s + poly s
