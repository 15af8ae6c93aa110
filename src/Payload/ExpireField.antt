-- ===== src/Payload/ExpireField.antt =====
-- dp_get_expire and dp_set_expire: a number in the 16 bytes of the expire field.
use dumbos_dumbos.Base.{
  ℕ, suc, ◌+◌, ◌-◌, ◌^◌, ◌<◌, ◌≡◌, refl, ap, ◌∙◌, sym, [], ◌∷◌, ◌++◌, arith, Bytes, length, take,
  replicate, take_all, IsText, c_str, c_str-terminated, append_assoc, append-nil,
}
use dumbos_dumbos.Base.Int.{ℤ, pos, negsuc}
use dumbos_dumbos.Decimal.{parse_long_long, print_ℤ}
use dumbos_dumbos.Decimal.RoundTrip.{
  IsLongLong, parse_long_long-print_ℤ, print_ℕ-IsText, length-print_ℕ,
}
use dumbos_dumbos.Payload.{Payload}
use dumbos_dumbos.Payload.FieldLaws.{strncpy_short}
use dumbos_dumbos.Payload.Expire.{expire_field, dp_set_expire, or_minus_one, dp_get_expire}

-- The value that a field of 16 bytes is read as.
abbrev pub field_value : Bytes → ℤ
field_value e = or_minus_one (parse_long_long (c_str (e ++ 0 ∷ [])))

pub c_str_padded :
    (s rest : Bytes) (n : ℕ) → IsText s → c_str ((s ++ replicate (suc n) 0) ++ rest) ≡ s
c_str_padded s rest n text =
    ap c_str (append_assoc s (replicate (suc n) 0) rest)
    ∙ c_str-terminated s (replicate n 0 ++ rest) text

expire_field-short :
    (s : Bytes) → length s < 16 → expire_field s ≡ s ++ replicate (suc (15 - length s)) 0
expire_field-short s h =
    ap (λ (l : Bytes). take 16 (l ++ replicate 16 0)) (take_all 15 s (omega arith))
    ∙ strncpy_short s h
    ∙ ap (λ (n : ℕ). s ++ replicate n 0) {y = suc (15 - length s)} (omega arith)

c_str-expire_field : (s : Bytes) → IsText s → length s < 16 → c_str (expire_field s ++ 0 ∷ []) ≡ s
c_str-expire_field s text h =
    ap (λ (l : Bytes). c_str (l ++ 0 ∷ [])) (expire_field-short s h)
    ∙ c_str_padded s (0 ∷ []) (15 - length s) text

-- The number is printed in at most 15 characters.
abbrev pub FitsField : ℤ → Type 0
FitsField (pos n) = n < 10 ^ 15
FitsField (negsuc n) = n + 1 < 10 ^ 14

print_ℤ-field : (z : ℤ) → FitsField z → IsText (print_ℤ z) × (length (print_ℤ z) < 16)
unfolding print_ℤ
print_ℤ-field (pos n) h = (print_ℕ-IsText n, omega (arith, length-print_ℕ 14 n h))
print_ℤ-field (negsuc n) h =
    ((omega arith, print_ℕ-IsText (suc n)), omega (arith, length-print_ℕ 13 (suc n) (omega arith)))

FitsField-IsLongLong : (z : ℤ) → FitsField z → IsLongLong z
FitsField-IsLongLong (pos n) h = omega arith
FitsField-IsLongLong (negsuc n) h = omega arith

field_value-expire_field : (z : ℤ) → FitsField z → field_value (expire_field (print_ℤ z)) ≡ z
field_value-expire_field z h =
    let (text, short) = print_ℤ-field z h in
    ap (λ (l : Bytes). or_minus_one (parse_long_long l)) (c_str-expire_field (print_ℤ z) text short)
    ∙ ap (λ (l : Bytes). or_minus_one (parse_long_long l)) (sym (append-nil (print_ℤ z)))
    ∙ ap or_minus_one (parse_long_long-print_ℤ z [] (FitsField-IsLongLong z h) refl)

-- An expiry that prints in at most 15 characters is read back as it was set.
pub dp_get_expire-dp_set_expire :
    (p : Payload) (z : ℤ) → FitsField z → dp_get_expire (dp_set_expire p z) ≡ z
unfolding dp_get_expire dp_set_expire
dp_get_expire-dp_set_expire p z h = field_value-expire_field z h
