-- ===== src/Tests/Payloads.antt =====
-- Payloads: a code that enables adb, with two bytes of data, and one that expires after its use.
use dumbos_dumbos.Base.{
  ◌+◌, ◌≤◌, ℕ, ◌≡◌, refl, true, [], ◌∷◌, ◌++◌, Bytes, codes, ok, replicate, streq, c_str,
}
use dumbos_dumbos.Base.Int.{pos, ◌+ℤ◌}
use dumbos_dumbos.Ed25519.{
  ed25519_sign_hex, ed25519_verify_hex, hex_to_bytes, hex_loop, hex_char_value, bytes_to_hex,
  hex_chars, Verdict, public_key_size, signature_size,
}
use dumbos_dumbos.Payload.{Payload, IsPayload, to_bytes, ntohl}
use dumbos_dumbos.Payload.Fields.{dp_validate_size, dp_get_data_size}
use dumbos_dumbos.Payload.Expire.{dp_get_expire, dp_get_expire_or_set}
use dumbos_dumbos.Payload.Sign.{dp_sign, dp_verify, zero_signature, signed_bytes, signature_string}
use dumbos_dumbos.Payload.SignLaws.{dp_verify-dp_sign, dp_verify_sound}
use dumbos_dumbos.Decimal.{parse_long_long}
use dumbos_dumbos.Tests.Toy.{toy, toy_hex, toy-IsEd25519, toy-IsKeyPair}

abbrev pub sample : Payload
sample = record {
  signature = replicate 129 0;
  expire = codes "9999" ++ replicate 12 0;
  command = codes "adb-enable" ++ replicate 6 0;
  padding = replicate 3 0;
  data_size = 0 ∷ 0 ∷ 0 ∷ 2 ∷ [];
  payload = codes "hi";
}

pub sample-IsPayload : IsPayload sample
sample-IsPayload = record {
  signature_length = refl;
  expire_length = refl;
  command_length = refl;
  padding_length = refl;
  data_size_length = refl;
}

-- The hex of a signature under the key of zeros, of data of `n` bytes.
abbrev pub hex_of : ℕ → Bytes
hex_of n = hex_chars (replicate 64 n)

-- 170 bytes were signed.
abbrev pub signed_sample : Payload
signed_sample = record sample { signature = hex_of 170 ++ 0 ∷ [] }

pub sample_signed : dp_sign toy sample 170 toy_hex ≡ (ok tt, signed_sample)
unfolding dp_sign ed25519_sign_hex hex_to_bytes hex_loop hex_char_value bytes_to_hex to_bytes
sample_signed = refl

pub sample_valid : dp_validate_size sample 170 ≡ true
unfolding dp_validate_size dp_get_data_size
sample_valid = refl

dp_verify-dp_sign_example :
    dp_verify toy (dp_sign toy sample 170 toy_hex).1 170 toy_hex ≡ (ok tt, zero_signature sample)
dp_verify-dp_sign_example =
    dp_verify-dp_sign toy sample 170 toy_hex toy_hex toy-IsEd25519 toy-IsKeyPair sample_valid signs
  where
    signs : (dp_sign toy sample 170 toy_hex).0 ≡ ok tt
    signs = rw (sample_signed) refl

sample_verified : (dp_verify toy signed_sample 170 toy_hex).0 ≡ ok tt
unfolding dp_verify dp_validate_size dp_get_data_size ed25519_verify_hex hex_to_bytes hex_loop
    hex_char_value hex_chars to_bytes streq c_str
sample_verified = refl

dp_verify_sound_example :
    (ntohl signed_sample.data_size + 168 ≡ 170)
    × (ntohl signed_sample.data_size ≤ 536870912)
    × ((key sig : Bytes) × (hex_to_bytes toy_hex public_key_size ≡ ok key)
        × (hex_to_bytes (signature_string signed_sample) signature_size ≡ ok sig)
        × (toy.digest_verify key sig (signed_bytes signed_sample 170) ≡ Verdict.valid))
dp_verify_sound_example = dp_verify_sound toy signed_sample 170 toy_hex sample_verified

-- An expiry of 30 seconds after the first use.
abbrev pub relative : Payload
relative = record sample { expire = codes ":30" ++ replicate 13 0 }

relative_fixed : (dp_get_expire_or_set (pos 1000) relative).0 ≡ pos 1030
unfolding dp_get_expire_or_set dp_get_expire parse_long_long c_str ◌+ℤ◌
relative_fixed = refl

hi_signed : ed25519_sign_hex toy toy_hex (codes "hi") ≡ ok (hex_of 2)
unfolding ed25519_sign_hex hex_to_bytes hex_loop hex_char_value bytes_to_hex
hi_signed = refl

hi_verified : ed25519_verify_hex toy toy_hex (codes "hi") (hex_of 2) ≡ ok tt
unfolding ed25519_verify_hex hex_to_bytes hex_loop hex_char_value hex_chars streq
hi_verified = refl
