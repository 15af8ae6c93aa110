-- ===== src/Payload/ExpireLaws.antt =====
-- Setting, reading and fixing the expiry of a payload.
use dumbos_dumbos.Base.{
  ℕ, zero, suc, ◌+◌, ◌-◌, ◌^◌, ◌<◌, ◌≡◌, refl, ap, ◌∙◌, sym, Bool, false, [], ◌∷◌, ◌++◌, arith,
  Bytes, ok, length, take, drop, replicate, length-append, IsText, c_str, leb, Bool-cases, inl, inr,
  append_assoc, append-nil, not, ◌&&◌, ◌==◌, length-take,
}
use dumbos_dumbos.Base.Int.{ℤ, pos, negsuc, ◌+ℤ◌, is_minus_one}
use dumbos_dumbos.Decimal.{parse_long_long, print_ℕ}
use dumbos_dumbos.Decimal.RoundTrip.{print_ℕ-IsText, length-print_ℕ, parse_long_long-print_ℕ}
use dumbos_dumbos.Payload.{Payload}
use dumbos_dumbos.Payload.FieldLaws.{dp_set_expire_str-text_field, text_field, text_field-short}
use dumbos_dumbos.Payload.Fields.{dp_set_expire_str}
use dumbos_dumbos.Payload.Expire.{
  expire_field, dp_set_expire, or_minus_one, dp_get_expire, has_colon, shift_left,
  dp_get_expire_or_set, is_past, dp_is_expired_compare,
}
use dumbos_dumbos.Payload.ExpireField.{c_str_padded, FitsField, dp_get_expire-dp_set_expire}

pub get_or_set-known :
    (p : Payload) (z now : ℤ)
    → dp_get_expire p ≡ z
    → is_minus_one z ≡ false
    → dp_get_expire_or_set now p ≡ (z, p)
unfolding dp_get_expire_or_set
get_or_set-known p z now e known = rw (e, known) refl

-- The state of a payload whose expiry was fixed to `z`.
abbrev Fixed : ℤ × Payload → Type 0
Fixed r = dp_get_expire r.1 ≡ r.0

get_or_set-Fixed :
    (now : ℤ) (p : Payload)
    → FitsField (dp_get_expire_or_set now p).0
    → Fixed (dp_get_expire_or_set now p)
unfolding dp_get_expire_or_set
get_or_set-Fixed now p = elim (Bool-cases (is_minus_one (dp_get_expire p))) [
  | inr e ↦ rw e (λ _. refl)
  | inl e ↦ rw e (elim (Bool-cases (has_colon p.expire)) [
    | inl c ↦ rw c (λ h. dp_get_expire-dp_set_expire _ _ h)
    | inr c ↦ rw c (λ h. dp_get_expire-dp_set_expire _ _ h)
  ])
]

-- The first use fixes the expiry: what dp_get_expire_or_set returned at the time `now`, unless it is
-- -1 or needs more than 15 characters, it returns at any later time, and the payload stays as the
-- first use left it.
pub dp_get_expire_or_set_again :
    (p : Payload) (now later : ℤ)
    → FitsField (dp_get_expire_or_set now p).0
    → is_minus_one (dp_get_expire_or_set now p).0 ≡ false
    → dp_get_expire_or_set later (dp_get_expire_or_set now p).1 ≡ dp_get_expire_or_set now p
dp_get_expire_or_set_again p now later h known =
    get_or_set-known (dp_get_expire_or_set now p).1 (dp_get_expire_or_set now p).0 later
      (get_or_set-Fixed now p h) known

-- A payload that was set to expire at `t` is found expired at `cur` exactly when `t` is not 0 and
-- `cur` is `t` or later, whatever the system time, and is not changed by the question.
pub dp_is_expired_compare-dp_set_expire :
    (p : Payload) (t cur : ℕ) (now : ℤ)
    → t < 10 ^ 15
    → dp_is_expired_compare now (dp_set_expire p (pos t)) (pos cur)
      ≡ (not (t == 0) && leb t cur, dp_set_expire p (pos t))
unfolding dp_is_expired_compare
dp_is_expired_compare-dp_set_expire p t cur now h =
    rw
      (get_or_set-known (dp_set_expire p (pos t)) (pos t) now
        (dp_get_expire-dp_set_expire p (pos t) h) refl)
      (ap (λ (b : Bool). (b, dp_set_expire p (pos t))) (past t))
  where
    past : (n : ℕ) → is_past (pos n) (pos cur) ≡ (not (n == 0) && leb n cur)
    past zero = refl
    past (suc n) = ground arith

-- The field of a string `:<s>`, moved by one byte.
c_str-shift_left :
    (s : Bytes)
    → IsText s
    → length s < 15
    → c_str (shift_left (text_field (b':' ∷ s)) ++ 0 ∷ []) ≡ s
c_str-shift_left s text h =
    let field : text_field (b':' ∷ s) ≡ b':' ∷ (s ++ replicate (suc (14 - length s)) 0) =
      text_field-short (b':' ∷ s) (omega arith)
      ∙ ap (λ (n : ℕ). (b':' ∷ s) ++ replicate (suc n) 0) {x = 15 - length (b':' ∷ s)}
          {y = 14 - length s} (omega arith) in
    ap (λ (e : Bytes). c_str (shift_left e ++ 0 ∷ [])) field
    ∙ ap c_str (
        append_assoc (s ++ replicate (suc (14 - length s)) 0)
          (drop 14 (s ++ replicate (suc (14 - length s)) 0)) (0 ∷ []))
    ∙ c_str_padded s _ (14 - length s) text

colon_no_number : (e : Bytes) → or_minus_one (parse_long_long (c_str (b':' ∷ e))) ≡ negsuc 0
unfolding parse_long_long c_str
colon_no_number e = refl

unset :
    (p : Payload) (s : Bytes)
    → dp_get_expire (record p { expire = text_field (b':' ∷ s) }) ≡ negsuc 0
unfolding dp_get_expire
unset p s = colon_no_number _

shifted_value :
    (p : Payload) (n : ℕ)
    → n < 10 ^ 14
    → IsText (print_ℕ n)
    → length (print_ℕ n) < 15
    → dp_get_expire (record p { expire = shift_left (text_field (b':' ∷ print_ℕ n)) }) ≡ pos n
unfolding dp_get_expire
shifted_value p n h text short =
    ap (λ (l : Bytes). or_minus_one (parse_long_long l)) (c_str-shift_left (print_ℕ n) text short)
    ∙ ap (λ (l : Bytes). or_minus_one (parse_long_long l)) (sym (append-nil (print_ℕ n)))
    ∙ ap or_minus_one (parse_long_long-print_ℕ n [] (omega arith) refl)

pos_add : (a b : ℕ) → pos a +ℤ pos b ≡ pos (a + b)
unfolding ◌+ℤ◌
pos_add a b = ground arith

first_use :
    (p : Payload) (n now : ℕ)
    → n < 10 ^ 14
    → IsText (print_ℕ n)
    → length (print_ℕ n) < 15
    → dp_get_expire_or_set (pos now) (record p { expire = text_field (b':' ∷ print_ℕ n) }) ≡ (
      pos (n + now),
      dp_set_expire
          (record p { expire = shift_left (text_field (b':' ∷ print_ℕ n)) })
          (pos (n + now)),
    )
unfolding dp_get_expire_or_set
first_use p n now h text short =
    rw (unset p (print_ℕ n), shifted_value p n h text short, pos_add n now) refl

-- A code with the expire string `:<n>` expires `n` seconds after its first use: used first at the
-- time `now`, it gets the expiry `n + now`, which its field holds from then on.
pub dp_get_expire_or_set_relative :
    (p : Payload) (n now : ℕ)
    → n < 10 ^ 14
    → n + now < 10 ^ 15
    → (p' : Payload) × (dp_set_expire_str p (b':' ∷ print_ℕ n) ≡ ok p')
      × (dp_get_expire p' ≡ negsuc 0)
      × ((dp_get_expire_or_set (pos now) p').0 ≡ pos (n + now))
      × (dp_get_expire (dp_get_expire_or_set (pos now) p').1 ≡ pos (n + now))
dp_get_expire_or_set_relative p n now h k =
    let text = print_ℕ-IsText n in
    let short : length (print_ℕ n) < 15 = omega (arith, length-print_ℕ 13 n h) in
    let p' = record p { expire = text_field (b':' ∷ print_ℕ n) } in
    let first = first_use p n now h text short in
    (
      p',
      dp_set_expire_str-text_field p (b':' ∷ print_ℕ n) (omega arith, text) (omega arith),
      unset p (print_ℕ n),
      ap (λ (r : ℤ × Payload). r.0) first,
      ap (λ (r : ℤ × Payload). dp_get_expire r.1) first
          ∙ dp_get_expire-dp_set_expire _ (pos (n + now)) k,
    )

length-expire_field : (s : Bytes) → length (expire_field s) ≡ 16
length-expire_field s = omega (
  arith,
  length-take {0} 16 (take 15 s ++ replicate 16 0),
  length-append {0} (take 15 s) (replicate 16 0),
)

-- The other fields stay.
abbrev pub SameBut : Payload → Payload → Type 0
SameBut p q = (e : Bytes) × (q ≡ record p { expire = e }) × (length p.expire ≡ 16 → length e ≡ 16)

-- Fixing the expiry touches the expire field alone and keeps its size.
pub dp_get_expire_or_set-SameBut :
    (now : ℤ) (p : Payload) → SameBut p (dp_get_expire_or_set now p).1
unfolding dp_get_expire_or_set dp_set_expire
dp_get_expire_or_set-SameBut now p = elim (Bool-cases (is_minus_one (dp_get_expire p))) [
  | inr e ↦ rw e (p.expire, refl, λ h. h)
  | inl e ↦ rw e (elim (Bool-cases (has_colon p.expire)) [
    | inl c ↦ rw c (expire_field _, refl, λ _. length-expire_field _)
    | inr c ↦ rw c (expire_field _, refl, λ _. length-expire_field _)
  ])
]
