-- ===== src/Tests/Toy.antt =====
-- A stand-in for OpenSSL that keeps its documented contract: the signature of data repeats the
-- length of the data, and depends on the public key's first byte.
use dumbos_dumbos.Base.{
  ℕ, zero, suc, ◌+◌, ◌%◌, ◌≡◌, refl, [], ◌∷◌, map, some, arith, Bytes, IsBytes, if◌then◌else◌,
  length, replicate, streq, streq_refl, subst,
}
use dumbos_dumbos.Ed25519.{
  Openssl, IsEd25519, valid, invalid, hex_to_bytes, hex_loop, hex_char_value,
}
use dumbos_dumbos.Ed25519.Laws.{IsKeyPair}

abbrev pub toy_public : Bytes → Bytes
toy_public key = map (λ x. x % 256) key

abbrev first : Bytes → ℕ
first [] = 0
first (b ∷ bs) = b

abbrev pub toy_signature : Bytes → Bytes → Bytes
toy_signature public data' = replicate 64 ((first public + length data') % 256)

abbrev pub toy : Openssl
toy = record {
  public_of = toy_public;
  digest_sign = λ key data'. some (toy_signature (toy_public key) data');
  digest_verify =
      λ public sig data'. if streq sig (toy_signature public data') then valid else invalid;
}

replicate-IsBytes : (n b : ℕ) → IsBytes (replicate n (b % 256))
replicate-IsBytes zero b = tt
replicate-IsBytes (suc n) b = (omega arith, replicate-IsBytes n b)

toy_public-IsBytes : (key : Bytes) → IsBytes (toy_public key)
toy_public-IsBytes [] = tt
toy_public-IsBytes (b ∷ bs) = (omega arith, toy_public-IsBytes bs)

length-toy_public : (key : Bytes) → length (toy_public key) ≡ length key
length-toy_public [] = refl
length-toy_public (b ∷ bs) = omega (arith, length-toy_public bs)

toy_signs :
    (public data' sig : Bytes)
    → some (toy_signature public data') ≡ some sig
    → (if streq sig (toy_signature public data') then valid else invalid) ≡ valid
toy_signs public data' sig h =
    let same : toy_signature public data' ≡ sig = cc h in
    subst (λ (s : Bytes). (if streq s (toy_signature public data') then valid else invalid) ≡ valid)
      same (rw (streq_refl (toy_signature public data')) refl)

pub toy-IsEd25519 : IsEd25519 toy
toy-IsEd25519 = record {
  signature_bytes = λ key data' sig h.
      subst IsBytes {x = toy_signature (toy_public key) data'} (cc h)
        (replicate-IsBytes 64 (first (toy_public key) + length data'));
  public_bytes = λ key _. toy_public-IsBytes key;
  public_length = λ key h. omega (arith, length-toy_public key, h);
  verify_sign = λ key data' sig h. toy_signs (toy_public key) data' sig h;
}

-- The key of 32 zeros.
abbrev pub toy_key : Bytes
toy_key = replicate 32 0

abbrev pub toy_hex : Bytes
toy_hex = replicate 64 b'0'

pub toy-IsKeyPair : IsKeyPair toy toy_hex toy_hex
unfolding hex_to_bytes hex_loop hex_char_value
toy-IsKeyPair = record { key = toy_key; private_decodes = refl; public_decodes = refl }
