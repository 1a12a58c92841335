-- ===== src/Base/Text/Decimal.antt =====
-- `to_string` and `parse` of `u64`.
use Prim.Native.Nat.{ℕ, zero, suc, ◌+◌, ◌-◌, ◌*◌, ◌/◌, ◌%◌, ◌^◌, ◌<◌}
use mathlib.Core.Path.{◌≡◌, refl, ◌∙◌, ap}
use mathlib.Core.Logic.{inl, inr}
use mathlib.Core.Bool.{Bool, true, false, ◌&&◌}
use mathlib.Core.Option.{Option, none, some}
use mathlib.Core.List.{[], ◌∷◌, ◌++◌}
use native.Mathlib.Omega.{arith}
use obsink.Base.Tests.{ltb, if◌then◌else◌, Bool-cases, ltb→lt}
use obsink.Base.Ord.{◌==◌, nat_ord}
use obsink.Base.Text.{Text, is_ascii_digit}

-- The digits of `n` in front of `rest`. Fuel above `n` is enough.
digits : ℕ → ℕ → Text → Text
digits zero n rest = rest
digits (suc fuel) n rest =
    let more = digits fuel (n / 10) ((b'0' + n % 10) ∷ rest) in
    if ltb n 10 then (b'0' + n) ∷ rest else more

-- `u64::to_string`.
unfoldable pub decimal : ℕ → Text
unfolding digits
decimal n = digits (suc n) n []

unfoldable pub all_digits : Text → Bool
unfolding is_ascii_digit
all_digits [] = true
all_digits (c ∷ cs) = is_ascii_digit c && all_digits cs

-- The number that digits stand for, after those read so far.
unfoldable pub digits_value : ℕ → Text → ℕ
digits_value acc [] = acc
digits_value acc (c ∷ cs) = digits_value (acc * 10 + (c - b'0')) cs

parse_digits : Text → Option ℕ
unfolding all_digits digits_value
parse_digits [] = none
parse_digits (c ∷ cs) =
    if all_digits (c ∷ cs) && ltb (digits_value 0 (c ∷ cs)) (2 ^ 64)
    then some (digits_value 0 (c ∷ cs))
    else none

-- `str::parse::<u64>`: a sign `+` is accepted.
unfoldable pub parse_u64 : Text → Option ℕ
unfolding parse_digits
parse_u64 [] = none
parse_u64 (c ∷ cs) = if c == b'+' then parse_digits cs else parse_digits (c ∷ cs)

-- The leading digits and what follows them.
unfoldable pub span_digits : Text → Text × Text
unfolding is_ascii_digit
span_digits [] = ([], [])
span_digits (c ∷ cs) =
    let rest = span_digits cs in if is_ascii_digit c then (c ∷ rest.0, rest.1) else ([], c ∷ cs)

digit_is_digit : (n : ℕ) → n < 10 → is_ascii_digit (b'0' + n) ≡ true
unfolding is_ascii_digit
digit_is_digit n h = ground arith

digits_value-digits :
    (fuel n : ℕ) (rest : Text)
    → n < fuel
    → digits_value 0 (digits fuel n rest) ≡ digits_value n rest
unfolding digits digits_value
digits_value-digits zero n rest h = absurd (omega arith)
digits_value-digits (suc fuel) n rest h = elim (Bool-cases (ltb n 10)) [
  | inl one ↦ rw one (ap (λ (v : ℕ). digits_value v rest) (omega arith))
  | inr many ↦ rw many (
      digits_value-digits fuel (n / 10) ((b'0' + n % 10) ∷ rest) (ground arith)
      ∙ ap (λ (v : ℕ). digits_value v rest) (omega arith))
]

all_digits-digits :
    (fuel n : ℕ) (rest : Text)
    → n < fuel
    → all_digits rest ≡ true
    → all_digits (digits fuel n rest) ≡ true
unfolding digits all_digits
all_digits-digits zero n rest h r = absurd (omega arith)
all_digits-digits (suc fuel) n rest h r = elim (Bool-cases (ltb n 10)) [
  | inl one ↦ rw (one, digit_is_digit n (ltb→lt n 10 one)) r
  | inr many ↦ rw many (
      all_digits-digits fuel (n / 10) ((b'0' + n % 10) ∷ rest) (ground arith)
        (rw (digit_is_digit (n % 10) (omega arith)) r))
]

pub all_digits-decimal : (n : ℕ) → all_digits (decimal n) ≡ true
unfolding decimal all_digits
all_digits-decimal n = all_digits-digits (suc n) n [] (omega arith) refl

pub digits_value-decimal : (n : ℕ) → digits_value 0 (decimal n) ≡ n
unfolding decimal digits_value
digits_value-decimal n = digits_value-digits (suc n) n [] (omega arith)

-- A number is never printed as nothing.
digits_ne :
    (fuel n c : ℕ) (rest : Text) → (d : ℕ) × (ds : Text) × (digits fuel n (c ∷ rest) ≡ d ∷ ds)
unfolding digits
digits_ne zero n c rest = (c, rest, refl)
digits_ne (suc fuel) n c rest = elim (Bool-cases (ltb n 10)) [
  | inl one ↦ (b'0' + n, c ∷ rest, rw one)
  | inr many ↦ rw many (digits_ne fuel (n / 10) (b'0' + n % 10) (c ∷ rest))
]

pub decimal_cons : (n : ℕ) → (d : ℕ) × (ds : Text) × (decimal n ≡ d ∷ ds)
unfolding decimal digits
decimal_cons n = elim (Bool-cases (ltb n 10)) [
  | inl one ↦ (b'0' + n, [], rw one)
  | inr many ↦ rw many (digits_ne n (n / 10) (b'0' + n % 10) [])
]

-- The leading digits of digits before something else.
pub span_digits-append :
    (ds rest : Text)
    → all_digits ds ≡ true
    → span_digits rest ≡ ([], rest)
    → span_digits (ds ++ rest) ≡ (ds, rest)
unfolding span_digits all_digits
span_digits-append [] rest h r = r
span_digits-append (d ∷ ds) rest h r = ground (arith, span_digits-append ds rest)

first_digit : (d : ℕ) (ds : Text) → all_digits (d ∷ ds) ≡ true → (d == b'+') ≡ false
unfolding all_digits
first_digit d ds h = ground arith

-- What is printed can be read back, up to the width of `u64`.
pub parse_u64-decimal : (n : ℕ) → n < 2 ^ 64 → parse_u64 (decimal n) ≡ some n
unfolding parse_u64 parse_digits
parse_u64-decimal n h =
    let (d, ds, e) = decimal_cons n in
    let a : all_digits (d ∷ ds) ≡ true = rw e at (all_digits-decimal n) in
    let v : digits_value 0 (d ∷ ds) ≡ n = rw e at (digits_value-decimal n) in
    rw e (ground (arith, a, v, first_digit d ds a))
