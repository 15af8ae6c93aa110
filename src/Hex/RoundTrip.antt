-- ===== src/Hex/RoundTrip.antt =====
-- Encoding and decoding of hex, and what the decoder refuses.
use dumbos_dumbos.Base.{
  is_value, is_value_sound, ℕ, ◌+◌, ◌*◌, ◌/◌, ◌%◌, ◌<◌, ◌≡◌, ◌≢◌, refl, ap, Bool, true, false, [],
  ◌∷◌, Option, none, some, arith, Bytes, IsBytes, Result, ok, err, length, All, all_below,
  all_below_sound, Bool-cases, inl, inr, ◌↔◌, subst, err-ne-ok,
}
use dumbos_dumbos.Hex.{
  char_at, hex_table, malloc_buf_to_hex, hexchartoval, as_char, store_byte, push, hex_pairs,
  is_even, malloc_hex_to_buf,
}

digit_table : all_below 16 (λ v. is_value (hexchartoval (char_at hex_table v)) v) ≡ true
unfolding all_below hexchartoval
digit_table = refl

hexchartoval-char_at : (v : ℕ) → v < 16 → hexchartoval (char_at hex_table v) ≡ some v
hexchartoval-char_at v h =
    is_value_sound _ v
      (all_below_sound 16 (λ v. is_value (hexchartoval (char_at hex_table v)) v) v digit_table h)

is_even-malloc_buf_to_hex : (buf : Bytes) → is_even (malloc_buf_to_hex buf) ≡ true
unfolding malloc_buf_to_hex
is_even-malloc_buf_to_hex [] = refl
is_even-malloc_buf_to_hex (c ∷ buf) = is_even-malloc_buf_to_hex buf

hex_pairs-malloc_buf_to_hex :
    (is_signed : Bool) (buf : Bytes)
    → IsBytes buf
    → hex_pairs is_signed (malloc_buf_to_hex buf) ≡ ok buf
unfolding hex_pairs malloc_buf_to_hex
hex_pairs-malloc_buf_to_hex is_signed [] h = refl
hex_pairs-malloc_buf_to_hex is_signed (c ∷ buf) (hc, h) =
    rw
      (
        hexchartoval-char_at (c / 16) (omega arith),
        hexchartoval-char_at (c % 16) (omega arith),
        hex_pairs-malloc_buf_to_hex is_signed buf h,
      )
      (ap (λ (b : ℕ). ok (b ∷ buf)) (omega arith))

length-malloc_buf_to_hex : (buf : Bytes) → length (malloc_buf_to_hex buf) ≡ 2 * length buf
unfolding malloc_buf_to_hex
length-malloc_buf_to_hex [] = refl
length-malloc_buf_to_hex (c ∷ buf) = omega (arith, length-malloc_buf_to_hex buf)

-- Decoding the hex of a buffer gives the buffer back, whether `char` is signed or not, and the hex
-- has two characters for each byte.
pub malloc_hex_to_buf-malloc_buf_to_hex :
    (is_signed : Bool) (buf : Bytes)
    → IsBytes buf
    → (malloc_hex_to_buf is_signed (malloc_buf_to_hex buf) ≡ ok buf)
      × (length (malloc_buf_to_hex buf) ≡ 2 * length buf)
unfolding malloc_hex_to_buf
malloc_hex_to_buf-malloc_buf_to_hex is_signed buf h = (
  rw (is_even-malloc_buf_to_hex buf) (hex_pairs-malloc_buf_to_hex is_signed buf h),
  length-malloc_buf_to_hex buf,
)

-- The character is a hex digit.
abbrev pub IsHexDigit : ℕ → Type 0
IsHexDigit c = hexchartoval c ≢ none

abbrev Pushed : Option ℕ → Option ℕ → Result Bytes → Result Bytes → Type 0
Pushed o p rest (err e) = Unit
Pushed o p rest (ok buf) = (o ≢ none) × (p ≢ none) × (cs : Bytes) × (rest ≡ ok cs)

push-Pushed :
    (o p : Option ℕ) (rest : Result Bytes)
    → Pushed o p rest (push (store_byte (as_char true o) (as_char true p)) rest)
push-Pushed none p rest = tt
push-Pushed (some v) none rest = tt
push-Pushed (some v) (some w) (err e) = tt
push-Pushed (some v) (some w) (ok cs) = (λ h. cc h, λ h. cc h, cs, refl)

hex_pairs-IsHexDigit :
    (hex buf : Bytes) → is_even hex ≡ true → hex_pairs true hex ≡ ok buf → All IsHexDigit hex
unfolding hex_pairs
hex_pairs-IsHexDigit [] buf e h = tt
hex_pairs-IsHexDigit (c ∷ []) buf e h = cc e
hex_pairs-IsHexDigit (c ∷ d ∷ hex) buf e h =
    let (hc, hd, cs, rest) =
      subst (λ r. Pushed (hexchartoval c) (hexchartoval d) (hex_pairs true hex) r) h
        (push-Pushed (hexchartoval c) (hexchartoval d) (hex_pairs true hex)) in
    (hc, (hd, hex_pairs-IsHexDigit hex cs e rest))

abbrev Decodes : Result Bytes → Type 0
Decodes r = (buf : Bytes) × (r ≡ ok buf)

push-Decodes :
    (o p : Option ℕ) (r : Result Bytes)
    → o ≢ none
    → p ≢ none
    → Decodes r
    → Decodes (push (store_byte o p) r)
push-Decodes none p r ho hp d = absurd (ho refl)
push-Decodes (some v) none r ho hp d = absurd (hp refl)
push-Decodes (some v) (some w) r ho hp (bs, e) = ((16 * v + w) % 256 ∷ bs, rw e)

as_char_ne : (is_signed : Bool) (o : Option ℕ) → o ≢ none → as_char is_signed o ≢ none
as_char_ne is_signed none h = absurd (h refl)
as_char_ne is_signed (some v) h = λ e. cc e

as_char_unsigned : (o : Option ℕ) → as_char false o ≢ none
as_char_unsigned none = λ e. cc e
as_char_unsigned (some v) = λ e. cc e

hex_pairs-Decodes :
    (is_signed : Bool) (hex : Bytes) → All IsHexDigit hex → Decodes (hex_pairs is_signed hex)
unfolding hex_pairs
hex_pairs-Decodes is_signed [] h = ([], refl)
hex_pairs-Decodes is_signed (c ∷ []) h = ([], refl)
hex_pairs-Decodes is_signed (c ∷ d ∷ hex) (hc, (hd, h)) =
    push-Decodes (as_char is_signed (hexchartoval c)) (as_char is_signed (hexchartoval d)) _
      (as_char_ne is_signed _ hc) (as_char_ne is_signed _ hd) (hex_pairs-Decodes is_signed hex h)

hex_pairs_unsigned : (hex : Bytes) → Decodes (hex_pairs false hex)
unfolding hex_pairs
hex_pairs_unsigned [] = ([], refl)
hex_pairs_unsigned (c ∷ []) = ([], refl)
hex_pairs_unsigned (c ∷ d ∷ hex) =
    push-Decodes (as_char false (hexchartoval c)) (as_char false (hexchartoval d)) _
      (as_char_unsigned (hexchartoval c)) (as_char_unsigned (hexchartoval d))
      (hex_pairs_unsigned hex)

-- Where `char` is signed, malloc_hex_to_buf succeeds exactly on an even number of hex digits.
pub malloc_hex_to_buf_iff :
    (hex : Bytes)
    → ((buf : Bytes) × (malloc_hex_to_buf true hex ≡ ok buf))
      ↔ ((is_even hex ≡ true) × All IsHexDigit hex)
unfolding malloc_hex_to_buf
malloc_hex_to_buf_iff hex = elim (Bool-cases (is_even hex)) [
  | inl e ↦
      rw e (λ h. (refl, hex_pairs-IsHexDigit hex h.0 e h.1), λ h. hex_pairs-Decodes true hex h.1)
  | inr e ↦ rw e (λ h. absurd (err-ne-ok h.1), λ h. cc h.0)
]

-- Where `char` is unsigned, malloc_hex_to_buf refuses no string of even length, whatever characters
-- it holds.
pub malloc_hex_to_buf_unsigned :
    (hex : Bytes) → is_even hex ≡ true → (buf : Bytes) × (malloc_hex_to_buf false hex ≡ ok buf)
unfolding malloc_hex_to_buf
malloc_hex_to_buf_unsigned hex e = rw e (hex_pairs_unsigned hex)
