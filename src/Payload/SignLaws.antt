-- ===== src/Payload/SignLaws.antt =====
-- What a signature on a payload means.
use dumbos_dumbos.Base.{
  ℕ, ◌+◌, ◌≤◌, ◌≡◌, refl, sym, true, [], ◌∷◌, ◌++◌, arith, Bytes, Result, ok, err, length,
  take-append, c_str_self, not_ltb, ltb, ◌==◌, Bool-cases, inl, inr, ==_iff, subst, err-ne-ok,
  length-append,
}
use dumbos_dumbos.Ed25519.{
  Openssl, IsEd25519, Verdict, ed25519_sign_hex, hex_to_bytes, public_key_size, signature_size,
}
use dumbos_dumbos.Ed25519.Laws.{
  length-ed25519_sign_hex, IsKeyPair, ed25519_verify_hex-ed25519_sign_hex, ed25519_sign_hex-IsText,
  length-hex_to_bytes, ed25519_verify_hex_sound,
}
use dumbos_dumbos.Payload.{Payload, base_size, dumb_payload_data_max_size, ntohl}
use dumbos_dumbos.Payload.Fields.{dp_validate_size, dp_get_data_size}
use dumbos_dumbos.Payload.Sign.{
  zero_signature, signed_bytes, put_signature, dp_sign, signature_string, dp_verify,
}

-- What dp_sign returned and left, as a signature of the payload's bytes.
abbrev SignedBy : Openssl → Payload → ℕ → Bytes → Result (Unit {0}) × Payload → Type 0
SignedBy o p size key (err e, p') = Unit
SignedBy o p size key (ok _, p') =
    (sig : Bytes) × (ed25519_sign_hex o key (signed_bytes p size) ≡ ok sig)
    × (p' ≡ record p { signature = sig ++ 0 ∷ [] })

put_signature-SignedBy :
    (o : Openssl) (p : Payload) (size : ℕ) (key : Bytes) (r : Result Bytes)
    → ed25519_sign_hex o key (signed_bytes p size) ≡ r
    → SignedBy o p size key (put_signature (zero_signature p) r)
put_signature-SignedBy o p size key (err e) h = tt
put_signature-SignedBy o p size key (ok sig) h = (sig, h, refl)

dp_sign-SignedBy :
    (o : Openssl) (p : Payload) (size : ℕ) (key : Bytes)
    → SignedBy o p size key (dp_sign o p size key)
unfolding dp_sign
dp_sign-SignedBy o p size key = elim (Bool-cases (length key == 64)) [
  | inr e ↦ rw e tt
  | inl e ↦ rw e (elim (Bool-cases (ltb size base_size)) [
    | inl small ↦ rw small tt
    | inr fits ↦ rw fits (put_signature-SignedBy o p size key _ refl)
  ])
]

verify_signed :
    (o : Openssl) (p : Payload) (size : ℕ) (private_hex public_hex sig : Bytes)
    → IsEd25519 o
    → IsKeyPair o private_hex public_hex
    → dp_validate_size p size ≡ true
    → ed25519_sign_hex o private_hex (signed_bytes p size) ≡ ok sig
    → dp_verify o (record p { signature = sig ++ 0 ∷ [] }) size public_hex
      ≡ (ok tt, zero_signature p)
unfolding dp_verify dp_validate_size
verify_signed o p size private_hex public_hex sig law pair valid signed =
    let (text, len) =
      ed25519_sign_hex-IsText o private_hex pair.key (signed_bytes p size) sig pair.private_decodes
        signed in
    let (accepted, _) =
      ed25519_verify_hex-ed25519_sign_hex o private_hex public_hex (signed_bytes p size) sig law
        pair signed in
    let key_len : (length public_hex == 64) ≡ true =
      (==_iff (length public_hex) 64).1 (
        length-hex_to_bytes public_hex public_key_size (o.public_of pair.key)
          pair.public_decodes) in
    rw (key_len, valid, take-append 128 sig (0 ∷ []) (sym len), c_str_self sig text, accepted) refl

-- What the server signs the daemon accepts: when the sizes of a payload are right and dp_sign
-- succeeds with the private key of a pair, dp_verify with its public key succeeds on the payload
-- that dp_sign left, and leaves the payload with a zeroed signature.
pub dp_verify-dp_sign :
    (o : Openssl) (p : Payload) (size : ℕ) (private_hex public_hex : Bytes)
    → IsEd25519 o
    → IsKeyPair o private_hex public_hex
    → dp_validate_size p size ≡ true
    → (dp_sign o p size private_hex).0 ≡ ok tt
    → dp_verify o (dp_sign o p size private_hex).1 size public_hex ≡ (ok tt, zero_signature p)
dp_verify-dp_sign o p size private_hex public_hex law pair valid h =
    finish (dp_sign o p size private_hex) (dp_sign-SignedBy o p size private_hex) h
  where
    finish :
        (r : Result (Unit {0}) × Payload)
        → SignedBy o p size private_hex r
        → r.0 ≡ ok tt
        → dp_verify o r.1 size public_hex ≡ (ok tt, zero_signature p)
    finish (err e, p') s h = cc h
    finish (ok _, p') (sig, signed, left) h =
        rw left (verify_signed o p size private_hex public_hex sig law pair valid signed)

validate_size_sound :
    (p : Payload) (size : ℕ)
    → dp_validate_size p size ≡ true
    → (ntohl p.data_size + 168 ≡ size) × (ntohl p.data_size ≤ 536870912)
unfolding dp_validate_size dp_get_data_size
validate_size_sound p size = elim (Bool-cases (ltb size 168)) [
  | inl small ↦ rw small (λ h. cc h)
  | inr fits ↦ rw fits (elim (Bool-cases (ltb dumb_payload_data_max_size (ntohl p.data_size))) [
    | inl big ↦ rw big (λ h. cc h)
    | inr fine ↦ rw fine (λ h. (
      (==_iff (ntohl p.data_size + 168) size).0 h,
      not_ltb dumb_payload_data_max_size (ntohl p.data_size) fine,
    ))
  ])
]

-- A payload that dp_verify accepts has 168 bytes more than its data_size field says in network byte
-- order, which says at most 512 MB, and OpenSSL found its signature valid under the given key for all
-- its bytes with a zeroed signature field.
pub dp_verify_sound :
    (o : Openssl) (p : Payload) (size : ℕ) (public_hex : Bytes)
    → (dp_verify o p size public_hex).0 ≡ ok tt
    → (ntohl p.data_size + 168 ≡ size)
      × (ntohl p.data_size ≤ 536870912)
      × ((key sig : Bytes) × (hex_to_bytes public_hex public_key_size ≡ ok key)
          × (hex_to_bytes (signature_string p) signature_size ≡ ok sig)
          × (o.digest_verify key sig (signed_bytes p size) ≡ Verdict.valid))
unfolding dp_verify
dp_verify_sound o p size public_hex h = elim (Bool-cases (length public_hex == 64)) [
  | inr e ↦ absurd (err-ne-ok (rw e at h))
  | inl e ↦ elim (Bool-cases (dp_validate_size p size)) [
    | inr bad ↦ absurd (err-ne-ok (rw (e, bad) at h))
    | inl good ↦ (
      (validate_size_sound p size good).0,
      (validate_size_sound p size good).1,
      ed25519_verify_hex_sound o public_hex (signed_bytes p size) (signature_string p)
          (rw (e, good) at h),
    )
  ]
]

-- A signing that succeeds puts the 128 characters of the signature and a NUL into the signature
-- field and changes nothing else.
pub dp_sign_fills :
    (o : Openssl) (p p' : Payload) (size : ℕ) (key : Bytes)
    → dp_sign o p size key ≡ (ok tt, p')
    → (s : Bytes) × (p' ≡ record p { signature = s }) × (length s ≡ 129)
dp_sign_fills o p p' size key h =
    let (sig, signed, left) =
      subst (λ r. SignedBy o p size key r) h (dp_sign-SignedBy o p size key) in
    (
      sig ++ 0 ∷ [],
      left,
      omega (
        arith,
        length-append {0} sig (0 ∷ []),
        length-ed25519_sign_hex o key (signed_bytes p size) sig signed,
      ),
    )
