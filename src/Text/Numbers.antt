-- ===== src/Text/Numbers.antt =====
-- strconv.Atoi of 64 bits and strconv.ParseUint, and that they read what strconv.Itoa writes.
use Prim.Native.String.{[], ◌∷◌}
use helix_acs.Prelude.{
  ℕ, zero, suc, ◌+◌, ◌-◌, ◌*◌, ◌/◌, ◌%◌, ◌<◌, ◌≤◌, ◌≡◌, refl, ap, ◌∙◌, inl, inr, arith, String,
  Char, code, Bool, true, false, ◌&&◌, Option, none, some, if◌then◌else◌, leb, ◌==◌, Bool-cases,
  leb→le,
}
use helix_acs.Text.{itoa, itoa_from, digit}

pub data ℤ : Type 0 where
  pos negsuc : ℕ → ℤ

abbrev pub negative : ℕ → ℤ
negative zero = pos 0
negative (suc n) = negsuc n

-- A number, one that does not fit with the nearest that does, or no number.
pub data Parsed : Type 0 where
  number out_of_range : ℤ → Parsed
  not_a_number : Parsed

abbrev pub is_digit : Char → Bool
is_digit c = leb b'0' (code c) && leb (code c) b'9'

-- The digits of a text, behind those of a number.
unfoldable pub digits_value : ℕ → String → Option ℕ
digits_value n [] = some n
digits_value n (c ∷ s) =
    let later = digits_value (n * 10 + (code c - b'0')) s in if is_digit c then later else none

abbrev pub bounded : ℕ → (ℕ → ℤ) → Option ℕ → Parsed
bounded limit sign none = not_a_number
bounded limit sign (some n) = if leb n limit then number (sign n) else out_of_range (sign limit)

abbrev pub unsigned : ℕ → (ℕ → ℤ) → String → Parsed
unfolding digits_value
unsigned limit sign [] = not_a_number
unsigned limit sign (c ∷ s) = bounded limit sign (digits_value 0 (c ∷ s))

abbrev pub max_int : ℕ
max_int = 9223372036854775807

unfoldable pub atoi : String → Parsed
unfolding unsigned
atoi [] = not_a_number
atoi (c ∷ s) =
    if code c == b'-'
    then unsigned (suc max_int) negative s
    else if code c == b'+'
    then unsigned max_int pos s
    else unsigned max_int pos (c ∷ s)

-- strconv.ParseUint of base 10 and 64 bits.
abbrev pub max_uint : ℕ
max_uint = 18446744073709551615

unfoldable pub parse_uint : String → Parsed
unfolding unsigned
parse_uint s = unsigned max_uint pos s

-- The value with an error that is not looked at.
abbrev pub atoi_or_zero : Parsed → ℤ
atoi_or_zero (number z) = z
atoi_or_zero (out_of_range z) = z
atoi_or_zero not_a_number = pos 0

abbrev pub AllDigits : String → Type 0
AllDigits [] = Unit
AllDigits (c ∷ s) = (is_digit c ≡ true) × AllDigits s

-- A text of one digit or more.
abbrev pub IsNumeral : String → Type 0
IsNumeral [] = ⊥
IsNumeral (c ∷ s) = AllDigits (c ∷ s)

code-digit : (n : ℕ) → n ≤ 9 → code (digit n) ≡ b'0' + n
code-digit zero h = refl
code-digit (suc zero) h = refl
code-digit (suc (suc zero)) h = refl
code-digit (suc (suc (suc zero))) h = refl
code-digit (suc (suc (suc (suc zero)))) h = refl
code-digit (suc (suc (suc (suc (suc zero))))) h = refl
code-digit (suc (suc (suc (suc (suc (suc zero)))))) h = refl
code-digit (suc (suc (suc (suc (suc (suc (suc zero))))))) h = refl
code-digit (suc (suc (suc (suc (suc (suc (suc (suc zero)))))))) h = refl
code-digit (suc (suc (suc (suc (suc (suc (suc (suc (suc zero))))))))) h = refl
code-digit (suc (suc (suc (suc (suc (suc (suc (suc (suc (suc n)))))))))) h = absurd (omega arith)

is_digit-digit : (n : ℕ) → n ≤ 9 → is_digit (digit n) ≡ true
is_digit-digit n h = let e = code-digit n h in rw e (ground arith)

itoa_from-small :
    (fuel n : ℕ) (acc : String) → leb n 9 ≡ true → itoa_from (suc fuel) n acc ≡ digit n ∷ acc
unfolding itoa_from
itoa_from-small fuel n acc h = rw (h, itoa_from) refl

itoa_from-large :
    (fuel n : ℕ) (acc : String)
    → leb n 9 ≡ false
    → itoa_from (suc fuel) n acc ≡ itoa_from fuel (n / 10) (digit (n % 10) ∷ acc)
unfolding itoa_from
itoa_from-large fuel n acc h = rw (h, itoa_from) refl

IsNumeral-itoa_from :
    (fuel n : ℕ) (acc : String) → n < fuel → AllDigits acc → IsNumeral (itoa_from fuel n acc)
IsNumeral-itoa_from zero n acc h all = absurd (omega arith)
IsNumeral-itoa_from (suc fuel) n acc h all = elim (Bool-cases (leb n 9)) [
  | inl small ↦ rw (itoa_from-small fuel n acc small) (is_digit-digit n (leb→le n 9 small), all)
  | inr large ↦ rw (itoa_from-large fuel n acc large) (
      IsNumeral-itoa_from fuel (n / 10) (digit (n % 10) ∷ acc) (ground arith)
        (is_digit-digit (n % 10) (omega arith), all))
]

digits_value-digit :
    (m n : ℕ) (s : String) → n ≤ 9 → digits_value m (digit n ∷ s) ≡ digits_value (m * 10 + n) s
unfolding digits_value
digits_value-digit m n s h =
    let e : m * 10 + (code (digit n) - b'0') ≡ m * 10 + n = rw (code-digit n h) (omega arith) in
    rw (is_digit-digit n h, digits_value) (ap (λ k. digits_value k s) e)

digits_value-itoa_from :
    (fuel n : ℕ) (acc : String)
    → n < fuel
    → digits_value 0 (itoa_from fuel n acc) ≡ digits_value n acc
digits_value-itoa_from zero n acc h = absurd (omega arith)
digits_value-itoa_from (suc fuel) n acc h = elim (Bool-cases (leb n 9)) [
  | inl small ↦
      rw (itoa_from-small fuel n acc small)
        (digits_value-digit 0 n acc (leb→le n 9 small) ∙ ap (λ m. digits_value m acc) (omega arith))
  | inr large ↦ rw (itoa_from-large fuel n acc large) (
      digits_value-itoa_from fuel (n / 10) (digit (n % 10) ∷ acc) (ground arith)
      ∙ digits_value-digit (n / 10) (n % 10) acc (omega arith)
      ∙ ap (λ m. digits_value m acc) (omega arith))
]

numeral_value :
    (s : String) (n : ℕ)
    → IsNumeral s
    → digits_value 0 s ≡ some n
    → n ≤ max_int
    → atoi s ≡ number (pos n)
unfolding atoi
numeral_value [] n h e b = absurd h
numeral_value (c ∷ s) n (h, _) e b =
    let not_minus : (code c == b'-') ≡ false = ground arith in
    let not_plus : (code c == b'+') ≡ false = ground arith in
    let fits : leb n max_int ≡ true = ground arith in rw (not_minus, not_plus, e, fits, atoi) refl

-- What is written is a numeral, and is read back.
pub IsNumeral-itoa : (n : ℕ) → IsNumeral (itoa n)
unfolding itoa
IsNumeral-itoa n = IsNumeral-itoa_from (suc n) n [] (omega arith) tt

pub atoi-itoa : (n : ℕ) → n ≤ max_int → atoi (itoa n) ≡ number (pos n)
unfolding itoa digits_value
atoi-itoa n b =
    numeral_value (itoa n) n (IsNumeral-itoa n) (digits_value-itoa_from (suc n) n [] (omega arith))
      b

parse_uint-digits :
    (s : String) (n : ℕ)
    → IsNumeral s
    → digits_value 0 s ≡ some n
    → n ≤ max_uint
    → parse_uint s ≡ number (pos n)
unfolding parse_uint
parse_uint-digits [] n h e b = absurd h
parse_uint-digits (c ∷ s) n h e b =
    let fits : leb n max_uint ≡ true = ground arith in rw (e, fits) refl

pub parse_uint-itoa : (n : ℕ) → n ≤ max_uint → parse_uint (itoa n) ≡ number (pos n)
unfolding itoa digits_value
parse_uint-itoa n b =
    parse_uint-digits (itoa n) n (IsNumeral-itoa n)
      (digits_value-itoa_from (suc n) n [] (omega arith)) b
