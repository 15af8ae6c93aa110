-- ===== src/Decimal.antt =====
-- common.c, parse_ushort and parse_long_long, with strtoul(3), strtoll(3) and printf's %lld in the
-- part that the code uses: base 10, `long` and `long long` of 64 bits.
pub mod RoundTrip
pub mod Digits
use dumbos_dumbos.Base.{
  ℕ, zero, suc, ◌+◌, ◌-◌, ◌*◌, ◌/◌, ◌%◌, ◌^◌, Bool, true, false, ◌&&◌, ◌||◌, List, [], ◌∷◌, ◌++◌,
  Option, none, some, Bytes, codes, Result, ok, err, leb, ltb, if◌then◌else◌, ◌==◌, ◌≡◌, refl,
}
use dumbos_dumbos.Base.Int.{ℤ, pos, negsuc}
use dumbos_dumbos.Base.Errno.{einval, erange}

abbrev pub isspace : ℕ → Bool
isspace c = c == b' ' || leb 9 c && leb c 13

abbrev pub isdigit : ℕ → Bool
isdigit c = leb b'0' c && leb c b'9'

unfoldable pub skip_space : Bytes → Bytes
skip_space [] = []
skip_space (c ∷ s) = if isspace c then skip_space s else c ∷ s

-- The digits at the beginning, read behind the number `n`, and what follows them.
unfoldable pub scan : ℕ → Bytes → ℕ × Bytes
scan n [] = (n, [])
scan n (c ∷ s) = let more = scan (n * 10 + (c - b'0')) s in if isdigit c then more else (n, c ∷ s)

-- The text of a number behind its sign: the sign, the magnitude and what follows; `none` where no
-- digit stands, so that strtoul and strtoll set `*end` to `str`.
unfoldable pub unsigned_number : Bool → Bytes → Option (Bool × ℕ × Bytes)
unfolding scan
unsigned_number negative [] = none
unsigned_number negative (c ∷ s) =
    if isdigit c then (let (n, rest) = scan 0 (c ∷ s) in some (negative, n, rest)) else none

unfoldable pub signed_number : Bytes → Option (Bool × ℕ × Bytes)
unfolding unsigned_number
signed_number [] = none
signed_number (c ∷ s) =
    if c == b'-'
    then unsigned_number true s
    else if c == b'+'
    then unsigned_number false s
    else unsigned_number false (c ∷ s)

unfoldable pub number : Bytes → Option (Bool × ℕ × Bytes)
unfolding signed_number skip_space
number s = signed_number (skip_space s)

abbrev pub negated : ℕ → ℤ
negated zero = pos 0
negated (suc n) = negsuc n

-- The value of strtoll: `err` is ERANGE in errno.
abbrev pub strtoll_value : Bool → ℕ → Result ℤ
strtoll_value true n = if leb n (2 ^ 63) then ok (negated n) else err erange
strtoll_value false n = if ltb n (2 ^ 63) then ok (pos n) else err erange

-- `while (*end != '\0') if (!isspace(*end)) …`
abbrev pub all_space : Bytes → Bool
all_space [] = true
all_space (c ∷ s) = isspace c && all_space s

abbrev pub long_long_result : Option (Bool × ℕ × Bytes) → Result ℤ
long_long_result none = err einval
long_long_result (some (negative, n, rest)) =
    if all_space rest then strtoll_value negative n else err einval

unfoldable pub parse_long_long : Bytes → Result ℤ
unfolding number
parse_long_long s = long_long_result (number s)

-- The value of strtoul, which negates in `unsigned long`.
abbrev pub strtoul_value : Bool → ℕ → Result ℕ
strtoul_value negative n =
    if leb (2 ^ 64) n then err erange else ok (if negative then (2 ^ 64 - n) % 2 ^ 64 else n)

-- The checks of parse_ushort behind strtoul: errno, the end, the range of the value as a
-- `signed long`.
abbrev pub ushort_range : Result ℕ → Bytes → Result ℕ
ushort_range (err e) rest = err e
ushort_range (ok v) [] = if leb (2 ^ 63) v || ltb 65535 v then err erange else ok v
ushort_range (ok v) (c ∷ rest) = err einval

abbrev pub ushort_result : Option (Bool × ℕ × Bytes) → Result ℕ
ushort_result none = err einval
ushort_result (some (negative, n, rest)) = ushort_range (strtoul_value negative n) rest

unfoldable pub parse_ushort : Bytes → Result ℕ
unfolding number
parse_ushort s = ushort_result (number s)

-- The decimal digits of `n`, with as much fuel as `n` has units.
digits : ℕ → ℕ → Bytes
digits zero n = []
digits (suc fuel) n =
    let front = digits fuel (n / 10) in
    if ltb n 10 then (b'0' + n) ∷ [] else front ++ (b'0' + n % 10) ∷ []

-- printf's %llu and %lld.
unfoldable pub print_ℕ : ℕ → Bytes
unfolding digits
print_ℕ n = digits (suc n) n

unfoldable pub print_ℤ : ℤ → Bytes
unfolding print_ℕ
print_ℤ (pos n) = print_ℕ n
print_ℤ (negsuc n) = b'-' ∷ print_ℕ (suc n)

parses :
    (parse_long_long (codes " -120\n") ≡ ok (negsuc 119))
    × (parse_long_long (codes "12 3") ≡ err einval)
    × (parse_long_long (codes "TODO") ≡ err einval)
    × (parse_ushort (codes "8080") ≡ ok 8080)
    × (print_ℤ (negsuc 119) ≡ codes "-120")
unfolding parse_long_long parse_ushort print_ℤ
parses = (refl, refl, refl, refl, refl)
