-- ===== src/RequestId.antt =====
-- requestid.c: the signed request ids that a client sends with each request.
-- Time, the random bytes and the signedness of `char` are arguments; OpenSSL is the parameter of
-- Ed25519.
pub mod Laws
use dumbos_dumbos.Base.{
  ℕ, zero, suc, ◌+◌, ◌-◌, ◌%◌, ◌^◌, Bool, true, false, ◌&&◌, List, [], ◌∷◌, ◌++◌, map, Option, none,
  some, Bytes, codes, Result, ok, err, leb, if◌then◌else◌, ◌==◌, length,
}
use dumbos_dumbos.Base.Int.{ℤ, pos, ◌+ℤ◌, ltb_ℤ}
use dumbos_dumbos.Base.Errno.{einval, ekeyexpired}
use dumbos_dumbos.Chars.{check_allowed_chars, requestid_allowed_chars}
use dumbos_dumbos.Hex.{char_at}
use dumbos_dumbos.Decimal.{parse_long_long, print_ℤ}
use dumbos_dumbos.Ed25519.{Openssl, ed25519_sign_hex, ed25519_verify_hex, ◌>>=◌}
use dumbos_dumbos.Payload.{default_expire_time}

abbrev pub request_id_magic : Bytes
request_id_magic = codes "af123oidoo"

abbrev pub request_id_len : ℕ
request_id_len = 64

-- asprintf of "%s%s%s%s".
abbrev pub request_data : Bytes → Bytes → Bytes → Bytes
request_data user request_id time = user ++ (request_id_magic ++ (request_id ++ time))

unfoldable pub request_id_sign : Openssl → Bytes → Bytes → ℤ → Bytes → Result Bytes
request_id_sign o user request_id request_time priv_key_hex =
    if check_allowed_chars request_id requestid_allowed_chars
    then ed25519_sign_hex o priv_key_hex (request_data user request_id (print_ℤ request_time))
    else err einval

-- `requestid[i] % strlen(request_id_chars)`: the `char` is converted to `size_t`.
abbrev pub as_size_t : Bool → ℕ → ℕ
as_size_t is_signed b = if is_signed && leb 128 b then 2 ^ 64 - 256 + b else b

abbrev pub pick_char : Bool → ℕ → ℕ
pick_char is_signed b = char_at requestid_allowed_chars (as_size_t is_signed b % 62)

-- `none` is NULL: getrandom(2) gave fewer bytes.
unfoldable pub request_id_generate : Bool → Bytes → Option Bytes
request_id_generate is_signed random =
    if length random == request_id_len then some (map (pick_char is_signed) random) else none

-- Behind the signature: the time must be a number, at most DEFAULT_EXPIRE_TIME seconds ago.
abbrev pub check_time : ℤ → Result ℤ → Result (Unit {0})
check_time now (err e) = err einval
check_time now (ok request_time) =
    if ltb_ℤ (request_time +ℤ pos default_expire_time) now then err ekeyexpired else ok tt

unfoldable pub request_id_verify :
    Openssl → Bytes → Bytes → Bytes → Bytes → Bytes → ℤ → Result (Unit {0})
request_id_verify o user request_id request_time_str signature pub_key_hex now = do
  _ ← ed25519_verify_hex o pub_key_hex (request_data user request_id request_time_str) signature
  check_time now (parse_long_long request_time_str)
