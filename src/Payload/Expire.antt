-- ===== src/Payload/Expire.antt =====
-- dumbpayload.c: the expiry of a payload. The system time is an argument.
use dumbos_dumbos.Base.{
  zero, suc, Bool, false, [], ◌∷◌, ◌++◌, Bytes, c_str, Result, ok, err, if◌then◌else◌, ◌==◌, take,
  drop, replicate,
}
use dumbos_dumbos.Base.Int.{ℤ, pos, negsuc, ◌+ℤ◌, leb_ℤ, is_minus_one}
use dumbos_dumbos.Decimal.{parse_long_long, print_ℤ}
use dumbos_dumbos.Payload.{Payload, expire_size, default_expire_time}

-- snprintf into the field, which was filled with NUL before: at most 15 characters.
abbrev pub expire_field : Bytes → Bytes
expire_field s = take expire_size (take 15 s ++ replicate expire_size 0)

unfoldable pub dp_set_expire : Payload → ℤ → Payload
dp_set_expire p expire = record p { expire = expire_field (print_ℤ expire) }

abbrev pub or_minus_one : Result ℤ → ℤ
or_minus_one (ok z) = z
or_minus_one (err e) = negsuc 0

unfoldable pub dp_get_expire : Payload → ℤ
dp_get_expire p = or_minus_one (parse_long_long (c_str (p.expire ++ 0 ∷ [])))

-- `payload->expire[0] == ':'`
abbrev pub has_colon : Bytes → Bool
has_colon [] = false
has_colon (c ∷ s) = c == b':'

-- memmove by one byte to the left; the last byte stays.
abbrev pub shift_left : Bytes → Bytes
shift_left e = drop 1 e ++ drop 15 e

-- The expiry of a payload whose field behind the colon was read as `z`.
abbrev pub relative_expire : ℤ → ℤ → ℤ
relative_expire now z = if is_minus_one z then now +ℤ pos default_expire_time else z +ℤ now

unfoldable pub dp_get_expire_or_set : ℤ → Payload → ℤ × Payload
dp_get_expire_or_set now p =
    let expire = dp_get_expire p in
    if is_minus_one expire
    then (if has_colon p.expire
        then (let shifted = record p { expire = shift_left p.expire } in
            let fixed = relative_expire now (dp_get_expire shifted) in
            (fixed, dp_set_expire shifted fixed))
        else (let fixed = now +ℤ pos default_expire_time in (fixed, dp_set_expire p fixed)))
    else (expire, p)

-- Not `0`, which never expires, and not later than the given time.
abbrev pub is_past : ℤ → ℤ → Bool
is_past (pos zero) cur_time = false
is_past (pos (suc n)) cur_time = leb_ℤ (pos (suc n)) cur_time
is_past (negsuc n) cur_time = leb_ℤ (negsuc n) cur_time

-- `now` is the time(NULL) of dp_get_expire_or_set.
unfoldable pub dp_is_expired_compare : ℤ → Payload → ℤ → Bool × Payload
dp_is_expired_compare now p cur_time =
    let (expire, p') = dp_get_expire_or_set now p in (is_past expire cur_time, p')

-- `later` is the time(NULL) of dp_is_expired itself.
unfoldable pub dp_is_expired : ℤ → ℤ → Payload → Bool × Payload
dp_is_expired now later p =
    let (expire, p') = dp_get_expire_or_set now p in (is_past expire later, p')
