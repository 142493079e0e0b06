-- ===== src/Prelude/C.antt =====
-- C's integers and strings. A string is the list of its bytes before the terminating NUL;
-- a `char *` that may be NULL is an `Option CString`.
use Prim.Native.Nat.{ℕ, zero, suc, ◌-◌, ◌%◌, ◌≤◌}
use mathlib.Core.Bool.{Bool, true, false, ◌&&◌}
use mathlib.Core.List.{List, [], ◌∷◌}
use Prim.Native.Char.{code}
use Prim.Native.String.{String}
use native.Mathlib.Omega.{arith}
use scanbd.Prelude.Tests.{◌==◌}
use scanbd.Prelude.Lists.{length}

abbrev pub CString : Type 0
CString = List ℕ

-- The bytes of an ASCII literal.
abbrev pub lit : String → CString
lit String.[] = []
lit (String.◌∷◌ c s) = code c ∷ lit s

-- `negsuc n` is -(n + 1).
pub data ℤ : Type 0 where
  pos : ℕ → ℤ
  negsuc : ℕ → ℤ

abbrev pub is_neg : ℤ → Bool
is_neg (pos n) = false
is_neg (negsuc n) = true

-- 2 ^ 64, for `unsigned long`.
abbrev pub ulong_mod : ℕ
ulong_mod = 18446744073709551616

-- The conversion of a `long` to `unsigned long`.
abbrev pub to_ulong : ℤ → ℕ
to_ulong (pos n) = n % ulong_mod
to_ulong (negsuc n) = ulong_mod - 1 - n % ulong_mod

-- strcmp(s, t) == 0
abbrev pub str_eq : CString → CString → Bool
str_eq [] [] = true
str_eq [] (d ∷ t) = false
str_eq (c ∷ s) [] = false
str_eq (c ∷ s) (d ∷ t) = c == d && str_eq s t

-- The C string that a buffer holds: its bytes before the first NUL.
abbrev pub c_string : List ℕ → CString
c_string [] = []
c_string (zero ∷ t) = []
c_string (suc c ∷ t) = suc c ∷ c_string t

pub length-c_string : (s : List ℕ) → length (c_string s) ≤ length s
length-c_string [] = omega arith
length-c_string (zero ∷ t) = omega arith
length-c_string (suc c ∷ t) = omega (arith, length-c_string t)
