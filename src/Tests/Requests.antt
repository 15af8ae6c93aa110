-- ===== src/Tests/Requests.antt =====
-- Requests that were signed at the time 100 for the user "bob".
use dumbos_dumbos.Base.{◌≡◌, refl, ◌∷◌, arith, Bytes, codes, ok, err, replicate, ltb, if◌then◌else◌}
use dumbos_dumbos.Base.Int.{pos}
use dumbos_dumbos.Base.Errno.{ekeyexpired}
use dumbos_dumbos.Chars.{check_allowed_chars, strchr}
use dumbos_dumbos.Decimal.{print_ℕ, print_ℤ}
use dumbos_dumbos.Ed25519.{ed25519_sign_hex, hex_to_bytes, hex_loop, hex_char_value, bytes_to_hex}
use dumbos_dumbos.RequestId.{request_id_sign, request_id_verify}
use dumbos_dumbos.RequestId.Laws.{request_id_verify-request_id_sign, request_id_verify_moved}
use dumbos_dumbos.Tests.Toy.{toy, toy_hex, toy-IsEd25519, toy-IsKeyPair}
use dumbos_dumbos.Tests.Payloads.{hex_of}

-- 18 bytes are signed.
pub request_signed :
    request_id_sign toy (codes "bob") (codes "r1") (pos 100) toy_hex ≡ ok (hex_of 18)
unfolding request_id_sign check_allowed_chars strchr print_ℤ print_ℕ ed25519_sign_hex hex_to_bytes
    hex_loop hex_char_value bytes_to_hex
request_signed = refl

request_id_verify-request_id_sign_example :
    request_id_verify toy
      (codes "bob")
      (codes "r1")
      (print_ℤ (pos 100))
      (hex_of 18)
      toy_hex
      (pos 160)
    ≡ (if ltb 160 160 then err ekeyexpired else ok tt)
request_id_verify-request_id_sign_example =
    request_id_verify-request_id_sign toy toy_hex toy_hex (codes "bob") (codes "r1") (hex_of 18) 100
      160 toy-IsEd25519 toy-IsKeyPair (omega arith) request_signed

-- The id "r1" and the time 100 are the id "r" and the time 1100.
moved_time : print_ℤ (pos 1100) ≡ b'1' ∷ print_ℤ (pos 100)
unfolding print_ℤ print_ℕ
moved_time = refl

request_id_verify_moved_example :
    request_id_verify toy
      (codes "bob")
      (codes "r")
      (print_ℤ (pos 1100))
      (hex_of 18)
      toy_hex
      (pos 1000)
    ≡ ok tt
request_id_verify_moved_example =
    request_id_verify_moved toy toy_hex toy_hex (codes "bob") (codes "r") (hex_of 18) b'1' 100 1100
      1000 toy-IsEd25519 toy-IsKeyPair (omega arith) moved_time request_signed (omega arith)

abbrev pub bytes_200 : Bytes
bytes_200 = replicate 64 200
