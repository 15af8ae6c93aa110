-- ===== src/Decimal/RoundTrip.antt =====
-- Printing a number and parsing it.
use native.Mathlib.Nat.{pow-suc}
use dumbos_dumbos.Base.{
  ℕ, zero, suc, ◌+◌, ◌-◌, ◌*◌, ◌/◌, ◌%◌, ◌^◌, ◌≤◌, ◌<◌, ◌≡◌, refl, ap, ◌∙◌, Bool, true, false, [],
  ◌∷◌, ◌++◌, append_assoc, Option, none, some, arith, Bytes, Result, ok, err, leb, ltb, Bool-cases,
  inl, inr, ltb→lt, not_ltb, leb→le, subst, lt→ltb, IsText, All-append, length, length-append,
  append-nil,
}
use dumbos_dumbos.Base.Int.{ℤ, pos, negsuc}
use dumbos_dumbos.Decimal.{
  isdigit, scan, number, strtoll_value, all_space, long_long_result, parse_long_long, strtoul_value,
  ushort_range, ushort_result, parse_ushort, digits, print_ℕ, print_ℤ,
}

-- A digit is read behind the number so far.
scan_digit : (n d m : ℕ) (t : Bytes) → d < 10 → n * 10 + d ≡ m → scan n ((b'0' + d) ∷ t) ≡ scan m t
unfolding scan
scan_digit n d m t h e = ground arith

scan-digits : (fuel n : ℕ) (t : Bytes) → n < fuel → scan 0 (digits fuel n ++ t) ≡ scan n t
unfolding digits
scan-digits zero n t h = absurd (omega arith)
scan-digits (suc fuel) n t h = elim (Bool-cases (ltb n 10)) [
  | inl e ↦ rw e (scan_digit 0 n n t (ltb→lt n 10 e) (omega arith))
  | inr e ↦
      rw (e, append_assoc (digits fuel (n / 10)) ((b'0' + n % 10) ∷ []) t)
        (scan-digits fuel (n / 10) ((b'0' + n % 10) ∷ t) (omega (arith, not_ltb n 10 e))
          ∙ scan_digit (n / 10) (n % 10) n t (omega arith) (omega arith))
]

-- The text begins with a digit.
abbrev DigitFirst : Bytes → Type 0
DigitFirst [] = ⊥
DigitFirst (c ∷ s) = (b'0' ≤ c) × (c ≤ b'9')

digits-DigitFirst : (fuel n : ℕ) (t : Bytes) → n < fuel → DigitFirst (digits fuel n ++ t)
unfolding digits
digits-DigitFirst zero n t h = absurd (omega arith)
digits-DigitFirst (suc fuel) n t h = elim (Bool-cases (ltb n 10)) [
  | inl e ↦ rw e (omega (arith, ltb→lt n 10 e))
  | inr e ↦
      rw (e, append_assoc (digits fuel (n / 10)) ((b'0' + n % 10) ∷ []) t)
        (digits-DigitFirst fuel (n / 10) ((b'0' + n % 10) ∷ t) (omega (arith, not_ltb n 10 e)))
]

number-DigitFirst : (s : Bytes) → DigitFirst s → number s ≡ some (false, (scan 0 s).0, (scan 0 s).1)
unfolding number
number-DigitFirst [] h = absurd h
number-DigitFirst (c ∷ s) h = ground arith

number_minus :
    (s : Bytes) → DigitFirst s → number (b'-' ∷ s) ≡ some (true, (scan 0 s).0, (scan 0 s).1)
unfolding number
number_minus [] h = absurd h
number_minus (c ∷ s) h = ground arith

-- The text does not begin with a digit.
abbrev pub NoDigit : Bytes → Type 0
NoDigit [] = Unit
NoDigit (c ∷ s) = isdigit c ≡ false

scan_end : (n : ℕ) (t : Bytes) → NoDigit t → scan n t ≡ (n, t)
unfolding scan
scan_end n [] h = refl
scan_end n (c ∷ t) h = rw h

scan-print_ℕ : (n : ℕ) (t : Bytes) → NoDigit t → scan 0 (print_ℕ n ++ t) ≡ (n, t)
unfolding print_ℕ
scan-print_ℕ n t h = scan-digits (suc n) n t (omega arith) ∙ scan_end n t h

pub number-print_ℕ : (n : ℕ) (t : Bytes) → NoDigit t → number (print_ℕ n ++ t) ≡ some (false, n, t)
number-print_ℕ n t h =
    number-DigitFirst (print_ℕ n ++ t)
      (unfold print_ℕ in digits-DigitFirst (suc n) n t (omega arith))
    ∙ ap (λ (r : ℕ × Bytes). some (false, r.0, r.1)) (scan-print_ℕ n t h)

number_minus-print_ℕ :
    (n : ℕ) (t : Bytes) → NoDigit t → number (b'-' ∷ (print_ℕ n ++ t)) ≡ some (true, n, t)
number_minus-print_ℕ n t h =
    number_minus (print_ℕ n ++ t) (unfold print_ℕ in digits-DigitFirst (suc n) n t (omega arith))
    ∙ ap (λ (r : ℕ × Bytes). some (true, r.0, r.1)) (scan-print_ℕ n t h)

-- The range of a `long long`.
abbrev pub IsLongLong : ℤ → Type 0
IsLongLong (pos n) = n < 2 ^ 63
IsLongLong (negsuc n) = n < 2 ^ 63

all_space-NoDigit : (ws : Bytes) → all_space ws ≡ true → NoDigit ws
all_space-NoDigit [] h = tt
all_space-NoDigit (c ∷ ws) h = ground arith

-- Every `long long` is parsed back from its decimal print, also with white space behind it.
pub parse_long_long-print_ℤ :
    (z : ℤ) (ws : Bytes)
    → IsLongLong z
    → all_space ws ≡ true
    → parse_long_long (print_ℤ z ++ ws) ≡ ok z
unfolding parse_long_long print_ℤ
parse_long_long-print_ℤ (pos n) ws h space =
    rw (number-print_ℕ n ws (all_space-NoDigit ws space), space) (ground arith)
parse_long_long-print_ℤ (negsuc n) ws h space =
    rw (number_minus-print_ℕ (suc n) ws (all_space-NoDigit ws space), space) (ground arith)

pub parse_long_long-print_ℕ :
    (n : ℕ) (ws : Bytes)
    → n < 2 ^ 63
    → all_space ws ≡ true
    → parse_long_long (print_ℕ n ++ ws) ≡ ok (pos n)
unfolding parse_long_long
parse_long_long-print_ℕ n ws h space =
    rw (number-print_ℕ n ws (all_space-NoDigit ws space), space) (ground arith)

abbrev InRange : Result ℤ → Type 0
InRange (ok z) = IsLongLong z
InRange (err e) = Unit

strtoll_value-InRange : (negative : Bool) (n : ℕ) → InRange (strtoll_value negative n)
strtoll_value-InRange true zero = omega arith
strtoll_value-InRange true (suc n) = elim (Bool-cases (leb (suc n) (2 ^ 63))) [
  | inl e ↦ rw e (omega (arith, leb→le (suc n) (2 ^ 63) e))
  | inr e ↦ rw e tt
]
strtoll_value-InRange false n = elim (Bool-cases (ltb n (2 ^ 63))) [
  | inl e ↦ rw e (ltb→lt n (2 ^ 63) e)
  | inr e ↦ rw e tt
]

long_long_result-InRange : (o : Option (Bool × ℕ × Bytes)) → InRange (long_long_result o)
long_long_result-InRange none = tt
long_long_result-InRange (some (negative, n, rest)) = elim (Bool-cases (all_space rest)) [
  | inl e ↦ rw e (strtoll_value-InRange negative n)
  | inr e ↦ rw e tt
]

-- A number that parse_long_long returns is a `long long`: a text of more is refused.
pub parse_long_long-IsLongLong : (s : Bytes) (z : ℤ) → parse_long_long s ≡ ok z → IsLongLong z
unfolding parse_long_long
parse_long_long-IsLongLong s z h = subst InRange h (long_long_result-InRange (number s))

-- Every unsigned short is parsed back from its decimal print.
pub parse_ushort-print_ℕ : (n : ℕ) → n < 65536 → parse_ushort (print_ℕ n) ≡ ok n
unfolding parse_ushort
parse_ushort-print_ℕ n h =
    rw (← append-nil (print_ℕ n)) (rw (number-print_ℕ n [] tt) (ground arith))

-- What parse_ushort returns is an unsigned short.
pub parse_ushort-lt : (s : Bytes) (n : ℕ) → parse_ushort s ≡ ok n → n < 65536
unfolding parse_ushort
parse_ushort-lt s n h = result (number s) h
  where
    range : (r : Result ℕ) (rest : Bytes) → ushort_range r rest ≡ ok n → n < 65536
    range (err e) rest h = cc h
    range (ok v) [] h = ground arith
    range (ok v) (c ∷ rest) h = cc h

    result : (o : Option (Bool × ℕ × Bytes)) → ushort_result o ≡ ok n → n < 65536
    result none h = cc h
    result (some (negative, m, rest)) h = range (strtoul_value negative m) rest h

-- A minus sign is taken: the negative of a number that is short by less than 65536 of 2 ^ 64 passes
-- for a short.
pub parse_ushort_negative :
    (n : ℕ) → 0 < n → n < 65536 → parse_ushort (b'-' ∷ print_ℕ (2 ^ 64 - n)) ≡ ok n
unfolding parse_ushort
parse_ushort_negative n positive h =
    rw (← append-nil (print_ℕ (2 ^ 64 - n)))
      (rw (number_minus-print_ℕ (2 ^ 64 - n) [] tt) (ground arith))

-- The print of a number is a text, of as many characters at most as the number needs.
digits-IsText : (fuel n : ℕ) → IsText (digits fuel n)
unfolding digits
digits-IsText zero n = tt
digits-IsText (suc fuel) n = elim (Bool-cases (ltb n 10)) [
  | inl e ↦ rw e (omega (arith, ltb→lt n 10 e))
  | inr e ↦ rw e (
      All-append _ (digits fuel (n / 10)) ((b'0' + n % 10) ∷ []) (digits-IsText fuel (n / 10))
        (omega arith))
]

length-digits : (k fuel n : ℕ) → n < 10 ^ suc k → length (digits fuel n) ≤ suc k
unfolding digits
length-digits k zero n h = omega arith
length-digits zero (suc fuel) n h = rw (lt→ltb n 10 (omega arith)) (omega arith)
length-digits (suc k) (suc fuel) n h = elim (Bool-cases (ltb n 10)) [
  | inl e ↦ rw e (omega arith)
  | inr e ↦ rw e (
      omega (
        arith,
        length-append {0} (digits fuel (n / 10)) ((b'0' + n % 10) ∷ []),
        length-digits k fuel (n / 10) (omega (arith, pow-suc 10 (suc k))),
      ))
]

pub print_ℕ-IsText : (n : ℕ) → IsText (print_ℕ n)
unfolding print_ℕ
print_ℕ-IsText n = digits-IsText (suc n) n

pub length-print_ℕ : (k n : ℕ) → n < 10 ^ suc k → length (print_ℕ n) ≤ suc k
unfolding print_ℕ
length-print_ℕ k n h = length-digits k (suc n) n h
