-- ===== src/Payload/Sign.antt =====
-- dumbpayload.c: dp_sign and dp_verify. Both sign the payload with a zeroed signature field.
use dumbos_dumbos.Base.{
  ℕ, [], ◌∷◌, ◌++◌, Bytes, c_str, Result, ok, err, ltb, ◌==◌, if◌then◌else◌, not, length, take,
  replicate,
}
use dumbos_dumbos.Base.Errno.{einval}
use dumbos_dumbos.Ed25519.{Openssl, ed25519_sign_hex, ed25519_verify_hex, signature_hex_size}
use dumbos_dumbos.Payload.{Payload, base_size, to_bytes}
use dumbos_dumbos.Payload.Fields.{dp_validate_size}

abbrev pub zero_signature : Payload → Payload
zero_signature p = record p { signature = replicate signature_hex_size 0 }

-- The bytes that are signed: the first `size` of the buffer.
abbrev pub signed_bytes : Payload → ℕ → Bytes
signed_bytes p size = take size (to_bytes (zero_signature p))

-- The result, and the payload as it is left behind.
abbrev pub put_signature : Payload → Result Bytes → Result (Unit {0}) × Payload
put_signature p (err e) = (err e, p)
put_signature p (ok signature) = (ok tt, record p { signature = signature ++ 0 ∷ [] })

unfoldable pub dp_sign : Openssl → Payload → ℕ → Bytes → Result (Unit {0}) × Payload
dp_sign o p size private_key_hex =
    if not (length private_key_hex == 64)
    then (err einval, p)
    else if ltb size base_size
    then (err einval, p)
    else put_signature (zero_signature p) (ed25519_sign_hex o private_key_hex (signed_bytes p size))

-- The signature field as a string, its last byte forced to NUL.
abbrev pub signature_string : Payload → Bytes
signature_string p = c_str (take 128 p.signature)

unfoldable pub dp_verify : Openssl → Payload → ℕ → Bytes → Result (Unit {0}) × Payload
dp_verify o p size pubkey_hex =
    if not (length pubkey_hex == 64)
    then (err einval, p)
    else if not (dp_validate_size p size)
    then (err einval, p)
    else (
      ed25519_verify_hex o pubkey_hex (signed_bytes p size) (signature_string p),
      zero_signature p,
    )
