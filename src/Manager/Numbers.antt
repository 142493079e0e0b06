-- ===== src/Manager/Numbers.antt =====
-- Numbers as text in src/scanbd/scanbd.c: isNumber, atoi of the C library, and the file with the
-- number of the process.
use scanbd.Prelude.{
  ℕ, zero, suc, ◌+◌, ◌-◌, ◌*◌, ◌/◌, ◌%◌, ◌^◌, ◌≤◌, ◌<◌, ◌≡◌, refl, ap, ◌∙◌, inl, inr, ◌==◌, leb,
  ltb, ◌&&◌, ◌||◌, if◌then◌else◌, Bool, true, false, Bool-cases, Option, none, some, [], ◌∷◌, ◌++◌,
  length, length-append, take, CString, ℤ, pos, negsuc, arith, decimal, digits_from,
}
use native.Mathlib.Nat.{pow-suc}

abbrev pub is_digit : ℕ → Bool
is_digit c = leb 48 c && leb c 57

-- The loop of isNumber.
abbrev pub all_digits : CString → Bool
all_digits [] = true
all_digits (c ∷ s) = is_digit c && all_digits s

abbrev pub is_number : Option CString → Bool
is_number none = false
is_number (some s) = all_digits s

-- isspace: a blank, or one of the characters from the tabulator to the carriage return.
abbrev pub is_space : ℕ → Bool
is_space c = c == 32 || (leb 9 c && leb c 13)

-- The number of the leading digits.
abbrev pub digits_value : ℕ → CString → ℕ
digits_value acc [] = acc
digits_value acc (c ∷ s) =
    let rest = digits_value (acc * 10 + (c - 48)) s in if is_digit c then rest else acc

abbrev pub negated : ℕ → ℤ
negated zero = pos 0
negated (suc n) = negsuc n

-- After the white space: a sign, and digits.
unfoldable pub signed_value : CString → ℤ
signed_value [] = pos 0
signed_value (c ∷ s) =
    if c == 45
    then negated (digits_value 0 s)
    else if c == 43
    then pos (digits_value 0 s)
    else pos (digits_value 0 (c ∷ s))

abbrev pub skip_space : CString → CString
skip_space [] = []
skip_space (c ∷ s) = let rest = skip_space s in if is_space c then rest else c ∷ s

-- atoi, for a number that an `int` can hold.
abbrev pub atoi : CString → ℤ
atoi s = signed_value (skip_space s)

-- snprintf(buf, LINE_MAX - 1, "%d\n", pid), with LINE_MAX 2048.
unfoldable pub pid_line : ℕ → CString
pid_line pid = take 2046 (decimal pid ++ 10 ∷ [])

-- fgets: at most `n` characters, up to the first newline.
abbrev pub fgets : ℕ → CString → CString
fgets zero s = []
fgets (suc n) [] = []
fgets (suc n) (c ∷ s) = let rest = fgets n s in if c == 10 then c ∷ [] else c ∷ rest

-- The digits in front of a text that starts with no digit are read as their number.
digits_value-digits_from :
    (fuel n : ℕ) (rest : CString)
    → n < 10 ^ fuel
    → digits_value 0 (digits_from fuel n rest) ≡ digits_value n rest
unfolding digits_from
digits_value-digits_from zero n rest h =
    let zero_left : n ≡ 0 = omega (arith, h) in rw zero_left refl
digits_value-digits_from (suc fuel) n rest h = elim (Bool-cases (ltb n 10)) [
  | inl small ↦
      let digit : is_digit (n % 10 + 48) ≡ true = ground arith in
      rw (small, digit) (ap (λ m. digits_value m rest) (ground (arith, small)))
  | inr large ↦
      let digit : is_digit (n % 10 + 48) ≡ true = ground arith in
      let below : n / 10 < 10 ^ fuel = omega (arith, h, pow-suc 10 fuel) in
      let same : n / 10 * 10 + (n % 10 + 48 - 48) ≡ n = omega arith in
      rw (large, digits_value-digits_from fuel (n / 10) ((n % 10 + 48) ∷ rest) below, digit, same)
        refl
]

-- The text starts with a digit.
abbrev StartsWithDigit : CString → Type 0
StartsWithDigit s = (c : ℕ) × (t : CString) × (s ≡ c ∷ t) × (is_digit c ≡ true)

digits_from-StartsWithDigit :
    (fuel n : ℕ) (rest : CString) → StartsWithDigit rest → StartsWithDigit (digits_from fuel n rest)
unfolding digits_from
digits_from-StartsWithDigit zero n rest h = h
digits_from-StartsWithDigit (suc fuel) n rest h =
    let first : StartsWithDigit ((n % 10 + 48) ∷ rest) = (n % 10 + 48, rest, refl, ground arith) in
    elim (Bool-cases (ltb n 10)) [
      | inl small ↦ rw small first
      | inr large ↦
          rw large (digits_from-StartsWithDigit fuel (n / 10) ((n % 10 + 48) ∷ rest) first)
    ]

printed-StartsWithDigit :
    (fuel n : ℕ) (rest : CString) → StartsWithDigit (digits_from (suc fuel) n rest)
unfolding digits_from
printed-StartsWithDigit fuel n rest =
    let first : StartsWithDigit ((n % 10 + 48) ∷ rest) = (n % 10 + 48, rest, refl, ground arith) in
    elim (Bool-cases (ltb n 10)) [
      | inl small ↦ rw small first
      | inr large ↦
          rw large (digits_from-StartsWithDigit fuel (n / 10) ((n % 10 + 48) ∷ rest) first)
    ]

digits_from-append :
    (fuel n : ℕ) (rest t : CString) → digits_from fuel n rest ++ t ≡ digits_from fuel n (rest ++ t)
unfolding digits_from
digits_from-append zero n rest t = refl
digits_from-append (suc fuel) n rest t = elim (Bool-cases (ltb n 10)) [
  | inl small ↦ rw small refl
  | inr large ↦ rw large (digits_from-append fuel (n / 10) ((n % 10 + 48) ∷ rest) t)
]

all_digits-digits_from :
    (fuel n : ℕ) (rest : CString)
    → all_digits rest ≡ true
    → all_digits (digits_from fuel n rest) ≡ true
unfolding digits_from
all_digits-digits_from zero n rest h = h
all_digits-digits_from (suc fuel) n rest h =
    let more : all_digits ((n % 10 + 48) ∷ rest) ≡ true = ground arith in
    elim (Bool-cases (ltb n 10)) [
      | inl small ↦ rw small more
      | inr large ↦ rw large (all_digits-digits_from fuel (n / 10) ((n % 10 + 48) ∷ rest) more)
    ]

length-digits_from :
    (fuel n : ℕ) (rest : CString) → length (digits_from fuel n rest) ≤ fuel + length rest
unfolding digits_from
length-digits_from zero n rest = omega arith
length-digits_from (suc fuel) n rest = elim (Bool-cases (ltb n 10)) [
  | inl small ↦ rw small (omega arith)
  | inr large ↦ rw large (omega (arith, length-digits_from fuel (n / 10) ((n % 10 + 48) ∷ rest)))
]

take-all : (k : ℕ) (s : CString) → length s ≤ k → take k s ≡ s
take-all zero [] h = refl
take-all zero (c ∷ s) h = absurd (omega (arith, h))
take-all (suc k) [] h = refl
take-all (suc k) (c ∷ s) h = ap (λ t. c ∷ t) (take-all k s (omega (arith, h)))

fgets-line :
    (k : ℕ) (s : CString)
    → length s < k
    → all_digits s ≡ true
    → fgets k (s ++ 10 ∷ []) ≡ s ++ 10 ∷ []
fgets-line zero s h d = absurd (omega (arith, h))
fgets-line (suc k) [] h d = refl
fgets-line (suc k) (c ∷ s) h d =
    let other : (c == 10) ≡ false = ground (arith, d) in
    let rest : all_digits s ≡ true = ground (arith, d) in
    rw other (ap (λ t. c ∷ t) (fgets-line k s (omega (arith, h)) rest))

atoi-digits : (s : CString) → StartsWithDigit s → atoi s ≡ pos (digits_value 0 s)
unfolding signed_value
atoi-digits s (c, t, e, d) =
    let blank : is_space c ≡ false = ground (arith, d) in
    let minus : (c == 45) ≡ false = ground (arith, d) in
    let plus : (c == 43) ≡ false = ground (arith, d) in rw (e, blank, minus, plus) refl

-- Reading the first line of the file that the daemon writes gives back the number of its process.
pub pid_line-atoi : (pid : ℕ) → pid < 2147483648 → atoi (fgets 254 (pid_line pid)) ≡ pos pid
unfolding pid_line decimal
pid_line-atoi pid h =
    let short = length-digits_from 20 pid [] in
    let digits = all_digits-digits_from 20 pid [] refl in
    let whole : take 2046 (digits_from 20 pid [] ++ 10 ∷ []) ≡ digits_from 20 pid [] ++ 10 ∷ [] =
      take-all 2046 (digits_from 20 pid [] ++ 10 ∷ [])
        (omega (arith, length-append (digits_from 20 pid []) (10 ∷ []), short)) in
    let line : fgets 254 (digits_from 20 pid [] ++ 10 ∷ []) ≡ digits_from 20 pid (10 ∷ []) =
      fgets-line 254 (digits_from 20 pid []) (omega (arith, short)) digits
      ∙ digits_from-append 20 pid [] (10 ∷ []) in
    ap (λ s. atoi (fgets 254 s)) whole
    ∙ (ap atoi line
        ∙ (atoi-digits (digits_from 20 pid (10 ∷ [])) (printed-StartsWithDigit 19 pid (10 ∷ []))
            ∙ ap pos (digits_value-digits_from 20 pid (10 ∷ []) (omega (arith, h)))))

-- A number that is printed counts as a number and is read back.
pub decimal-is_number :
    (n : ℕ) → n < 2147483648 → (is_number (some (decimal n)) ≡ true) × (atoi (decimal n) ≡ pos n)
unfolding decimal
decimal-is_number n h = (
  all_digits-digits_from 20 n [] refl,
  atoi-digits (digits_from 20 n []) (printed-StartsWithDigit 19 n [])
      ∙ ap pos (digits_value-digits_from 20 n [] (omega (arith, h))),
)
