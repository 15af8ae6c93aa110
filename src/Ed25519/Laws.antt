-- ===== src/Ed25519/Laws.antt =====
-- Signing and verifying with hex keys.
use dumbos_dumbos.Base.{
  ℕ, ◌+◌, ◌*◌, ◌/◌, ◌%◌, ◌<◌, ◌≡◌, refl, ap, Bool, true, false, [], ◌∷◌, Option, none, some, arith,
  Bytes, IsBytes, Result, ok, err, length, all_below, all_below_sound, ◌==◌, ==_iff, if◌then◌else◌,
  Bool-cases, inl, inr, le→not_ltb, subst, IsText, ltb, err-ne-ok,
}
use dumbos_dumbos.Hex.{char_at}
use dumbos_dumbos.Ed25519.HexLaws.{length-hex_chars, hex_to_bytes-hex_chars}
use dumbos_dumbos.Ed25519.{
  Openssl, IsEd25519, Verdict, hex_to_bytes, table, hex_chars, bytes_to_hex, ◌>>=◌, or_eio,
  check_size, ed25519_sign_hex, ed25519_verify_hex, verdict_result, ed25519_generate_keypair_hex,
  signature_size, public_key_size, private_key_size, signature_hex_size,
}

-- Two hex strings of one generated pair.
pub record IsKeyPair (o : Openssl) (private_hex public_hex : Bytes) : Type 0 where
  pub key : Bytes
  pub private_decodes : hex_to_bytes private_hex private_key_size ≡ ok key
  pub public_decodes : hex_to_bytes public_hex public_key_size ≡ ok (o.public_of key)

bytes_to_hex_fits :
    (bs : Bytes) (n : ℕ) → length bs ≡ n → bytes_to_hex bs (n * 2 + 1) ≡ ok (hex_chars bs)
unfolding bytes_to_hex
bytes_to_hex_fits bs n e = rw (le→not_ltb (n * 2 + 1) (length bs * 2 + 1) (omega arith)) refl

check_size_same : (n : ℕ) (bs : Bytes) → length bs ≡ n → check_size n bs ≡ ok bs
check_size_same n bs e = ground (arith, ==_iff (length bs) n)

-- What a successful signing returns: the hex of a signature that OpenSSL made.
abbrev pub Signed : Openssl → Bytes → Bytes → Result Bytes → Type 0
Signed o key data' (err e) = Unit
Signed o key data' (ok hex) =
    (sig : Bytes) × (o.digest_sign key data' ≡ some sig)
    × (length sig ≡ signature_size)
    × (hex ≡ hex_chars sig)

abbrev encode_signature : Option Bytes → Result Bytes
encode_signature raw =
    or_eio raw >>= λ r. check_size signature_size r >>= λ s. bytes_to_hex s signature_hex_size

encode_signature-Signed :
    (o : Openssl) (key data' : Bytes) (raw : Option Bytes)
    → o.digest_sign key data' ≡ raw
    → Signed o key data' (encode_signature raw)
encode_signature-Signed o key data' none e = tt
encode_signature-Signed o key data' (some sig) e =
    elim (Bool-cases (length sig == signature_size)) [
      | inl same ↦
          (let n : length sig ≡ signature_size = (==_iff (length sig) signature_size).0 same in
            rw (check_size_same signature_size sig n, bytes_to_hex_fits sig signature_size n)
              (sig, e, n, refl))
      | inr other ↦ rw (other, check_size) tt
    ]

sign_hex-Signed :
    (o : Openssl) (private_hex key data' : Bytes)
    → hex_to_bytes private_hex private_key_size ≡ ok key
    → Signed o key data' (ed25519_sign_hex o private_hex data')
unfolding ed25519_sign_hex
sign_hex-Signed o private_hex key data' decodes =
    rw decodes (encode_signature-Signed o key data' (o.digest_sign key data') refl)

-- A signature is the hex of 64 bytes, 128 characters, and the public key of the pair accepts it for
-- the signed data, whenever OpenSSL keeps its documented contract.
pub ed25519_verify_hex-ed25519_sign_hex :
    (o : Openssl) (private_hex public_hex data' signature : Bytes)
    → IsEd25519 o
    → IsKeyPair o private_hex public_hex
    → ed25519_sign_hex o private_hex data' ≡ ok signature
    → (ed25519_verify_hex o public_hex data' signature ≡ ok tt) × (length signature ≡ 128)
unfolding ed25519_verify_hex
ed25519_verify_hex-ed25519_sign_hex o private_hex public_hex data' signature law pair h =
    let (sig, signed, len, shown) =
      subst (λ r. Signed o pair.key data' r) h
        (sign_hex-Signed o private_hex pair.key data' pair.private_decodes) in
    (
      rw
          (
            pair.public_decodes,
            shown,
            hex_to_bytes-hex_chars sig signature_size
                (law.signature_bytes pair.key data' sig signed) len,
            law.verify_sign pair.key data' sig signed,
          )
          refl,
      omega (arith, length-hex_chars sig, ap (λ (l : Bytes). length l) shown),
    )

-- A hex string that decodes has two characters for each byte.
pub length-hex_to_bytes :
    (hex : Bytes) (n : ℕ) (bs : Bytes) → hex_to_bytes hex n ≡ ok bs → length hex ≡ n * 2
unfolding hex_to_bytes
length-hex_to_bytes hex n bs h = elim (Bool-cases (length hex == n * 2)) [
  | inl e ↦ (==_iff (length hex) (n * 2)).0 e
  | inr e ↦ absurd (err-ne-ok (rw e at h))
]

-- Verification succeeds only on a key and a signature that decode to their sizes and that OpenSSL
-- finds valid for the data.
pub ed25519_verify_hex_sound :
    (o : Openssl) (public_hex data' signature_hex : Bytes)
    → ed25519_verify_hex o public_hex data' signature_hex ≡ ok tt
    → (key sig : Bytes) × (hex_to_bytes public_hex public_key_size ≡ ok key)
      × (hex_to_bytes signature_hex signature_size ≡ ok sig)
      × (o.digest_verify key sig data' ≡ Verdict.valid)
unfolding ed25519_verify_hex
ed25519_verify_hex_sound o public_hex data' signature_hex h =
    keys (hex_to_bytes public_hex public_key_size) (hex_to_bytes signature_hex signature_size) refl
      refl h
  where
    verdict :
        (key sig : Bytes) (v : Verdict)
        → o.digest_verify key sig data' ≡ v
        → verdict_result v ≡ ok tt
        → o.digest_verify key sig data' ≡ Verdict.valid
    verdict key sig Verdict.valid e h = e
    verdict key sig Verdict.invalid e h = cc h
    verdict key sig Verdict.failed e h = cc h

    keys :
        (k s : Result Bytes)
        → hex_to_bytes public_hex public_key_size ≡ k
        → hex_to_bytes signature_hex signature_size ≡ s
        → (k >>= λ key. s >>= λ sig. verdict_result (o.digest_verify key sig data')) ≡ ok tt
        → (key sig : Bytes) × (hex_to_bytes public_hex public_key_size ≡ ok key)
          × (hex_to_bytes signature_hex signature_size ≡ ok sig)
          × (o.digest_verify key sig data' ≡ Verdict.valid)
    keys (err x) s ek es h = cc h
    keys (ok key) (err x) ek es h = cc h
    keys (ok key) (ok sig) ek es h = (key, sig, ek, es, verdict key sig _ refl h)

-- The hex strings of a pair that OpenSSL generated are a pair for signing and verifying.
pub ed25519_generate_keypair_hex-IsKeyPair :
    (o : Openssl) (key : Bytes)
    → IsEd25519 o
    → IsBytes key
    → length key ≡ private_key_size
    → (public_hex private_hex : Bytes) × (ed25519_generate_keypair_hex (some (o.public_of key, key))
        ≡ ok (public_hex, private_hex))
      × IsKeyPair o private_hex public_hex
unfolding ed25519_generate_keypair_hex
ed25519_generate_keypair_hex-IsKeyPair o key law bytes len =
    let public_len = law.public_length key len in
    (
      hex_chars (o.public_of key),
      hex_chars key,
      rw
          (
            check_size_same public_key_size (o.public_of key) public_len,
            check_size_same private_key_size key len,
            bytes_to_hex_fits (o.public_of key) public_key_size public_len,
            bytes_to_hex_fits key private_key_size len,
          )
          refl,
      record {
        key = key;
        private_decodes = hex_to_bytes-hex_chars key private_key_size bytes len;
        public_decodes =
            hex_to_bytes-hex_chars (o.public_of key) public_key_size (law.public_bytes key len)
              public_len;
      },
    )

abbrev is_text_char : ℕ → Bool
is_text_char c = if c == 0 then false else ltb c 256

text_table : all_below 16 (λ v. is_text_char (char_at table v)) ≡ true
unfolding all_below
text_table = refl

char_at_text : (v : ℕ) → v < 16 → (0 < char_at table v) × (char_at table v < 256)
char_at_text v h =
    ground (arith, all_below_sound 16 (λ w. is_text_char (char_at table w)) v text_table h)

hex_chars-IsText : (bs : Bytes) → IsText (hex_chars bs)
unfolding hex_chars
hex_chars-IsText [] = tt
hex_chars-IsText (b ∷ bs) = (
  char_at_text (b / 16 % 16) (omega arith),
  (char_at_text (b % 16) (omega arith), hex_chars-IsText bs),
)

-- A signature is a text of 128 characters.
pub ed25519_sign_hex-IsText :
    (o : Openssl) (private_hex key data' signature : Bytes)
    → hex_to_bytes private_hex private_key_size ≡ ok key
    → ed25519_sign_hex o private_hex data' ≡ ok signature
    → IsText signature × (length signature ≡ 128)
ed25519_sign_hex-IsText o private_hex key data' signature decodes h =
    let (sig, _, len, shown) =
      subst (λ r. Signed o key data' r) h (sign_hex-Signed o private_hex key data' decodes) in
    (
      rw shown (hex_chars-IsText sig),
      omega (arith, length-hex_chars sig, ap (λ (l : Bytes). length l) shown),
    )

-- So is every signature, since a key that does not decode signs nothing.
pub length-ed25519_sign_hex :
    (o : Openssl) (private_hex data' signature : Bytes)
    → ed25519_sign_hex o private_hex data' ≡ ok signature
    → length signature ≡ 128
unfolding ed25519_sign_hex
length-ed25519_sign_hex o private_hex data' signature h =
    decoded (hex_to_bytes private_hex private_key_size) refl
  where
    decoded :
        (r : Result Bytes) → hex_to_bytes private_hex private_key_size ≡ r → length signature ≡ 128
    decoded (ok key) e = (ed25519_sign_hex-IsText o private_hex key data' signature e h).1
    decoded (err x) e = absurd (err-ne-ok (rw e at h))
