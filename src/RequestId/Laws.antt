-- ===== src/RequestId/Laws.antt =====
-- What a signed request id is good for.
use dumbos_dumbos.Base.{
  ℕ, suc, ◌+◌, ◌%◌, ◌^◌, ◌≤◌, ◌<◌, ◌≡◌, ◌≢◌, refl, ap, ◌∙◌, sym, Bool, true, [], ◌∷◌, ◌++◌, map,
  append_assoc, append-nil, none, some, arith, Bytes, ok, err, err-ne-ok, length, ltb,
  if◌then◌else◌, Bool-cases, inl, inr, all_below, all_below_sound,
}
use dumbos_dumbos.Base.Int.{ℤ, pos, ◌+ℤ◌}
use dumbos_dumbos.Base.Errno.{ekeyexpired}
use dumbos_dumbos.Chars.{
  check_allowed_chars, requestid_allowed_chars, request_id_verify_chars, strchr,
}
use dumbos_dumbos.Hex.{char_at}
use dumbos_dumbos.Decimal.{parse_long_long, print_ℤ, print_ℕ}
use dumbos_dumbos.Decimal.RoundTrip.{parse_long_long-print_ℕ}
use dumbos_dumbos.Ed25519.{Openssl, IsEd25519, ed25519_sign_hex}
use dumbos_dumbos.Ed25519.Laws.{IsKeyPair, ed25519_verify_hex-ed25519_sign_hex}
use dumbos_dumbos.RequestId.{
  request_data, request_id_sign, as_size_t, pick_char, request_id_generate, check_time,
  request_id_verify, request_id_magic,
}

parse_print : (n : ℕ) → n < 2 ^ 63 → parse_long_long (print_ℕ n) ≡ ok (pos n)
parse_print n h =
    ap parse_long_long (sym (append-nil (print_ℕ n))) ∙ parse_long_long-print_ℕ n [] h refl

check_time_at :
    (now n : ℕ)
    → check_time (pos now) (ok (pos n)) ≡ (if ltb (n + 60) now then err ekeyexpired else ok tt)
unfolding ◌+ℤ◌
check_time_at now n = ground arith

sign_ok :
    (o : Openssl) (user request_id : Bytes) (t : ℤ) (key signature : Bytes)
    → request_id_sign o user request_id t key ≡ ok signature
    → ed25519_sign_hex o key (request_data user request_id (print_ℤ t)) ≡ ok signature
unfolding request_id_sign
sign_ok o user request_id t key signature h =
    elim (Bool-cases (check_allowed_chars request_id requestid_allowed_chars)) [
      | inl e ↦ rw e at h
      | inr e ↦ absurd (err-ne-ok (rw e at h))
    ]

-- The signature of one text verifies for any user, id and time that spell the same text.
verify_same_text :
    (o : Openssl) (private_hex public_hex user request_id time signature text : Bytes) (now n : ℕ)
    → IsEd25519 o
    → IsKeyPair o private_hex public_hex
    → ed25519_sign_hex o private_hex text ≡ ok signature
    → request_data user request_id time ≡ text
    → parse_long_long time ≡ ok (pos n)
    → request_id_verify o user request_id time signature public_hex (pos now)
      ≡ (if ltb (n + 60) now then err ekeyexpired else ok tt)
unfolding request_id_verify
verify_same_text o private_hex public_hex user request_id time signature text now n law pair signed
      same parsed =
    rw
      (
        same,
        (ed25519_verify_hex-ed25519_sign_hex o private_hex public_hex text signature law pair
            signed).0,
        parsed,
      )
      (check_time_at now n)

-- A request that a client signed at the time `t` with the private key of a pair is accepted under
-- the public key until DEFAULT_EXPIRE_TIME seconds later, and is refused as expired after that.
pub request_id_verify-request_id_sign :
    (o : Openssl) (private_hex public_hex user request_id signature : Bytes) (t now : ℕ)
    → IsEd25519 o
    → IsKeyPair o private_hex public_hex
    → t < 2 ^ 63
    → request_id_sign o user request_id (pos t) private_hex ≡ ok signature
    → request_id_verify o user request_id (print_ℤ (pos t)) signature public_hex (pos now)
      ≡ (if ltb (t + 60) now then err ekeyexpired else ok tt)
request_id_verify-request_id_sign o private_hex public_hex user request_id signature t now law pair
      h signed =
    verify_same_text o private_hex public_hex user request_id (print_ℤ (pos t)) signature
      (request_data user request_id (print_ℤ (pos t))) now t law pair
      (sign_ok o user request_id (pos t) private_hex signature signed) refl
      (unfold print_ℤ in parse_print t h)

-- The id and the time are signed with nothing between them: the signature of a request whose id ends
-- in the character `c` is accepted for the id without it and the time with it in front. Where these
-- spell the number `n`, the request is accepted under the shorter id until `n` + 60, though the
-- signed time `t` has long expired.
pub request_id_verify_moved :
    (o : Openssl) (private_hex public_hex user request_id signature : Bytes) (c t n now : ℕ)
    → IsEd25519 o
    → IsKeyPair o private_hex public_hex
    → n < 2 ^ 63
    → print_ℤ (pos n) ≡ c ∷ print_ℤ (pos t)
    → request_id_sign o user (request_id ++ c ∷ []) (pos t) private_hex ≡ ok signature
    → now ≤ n + 60
    → request_id_verify o user request_id (print_ℤ (pos n)) signature public_hex (pos now) ≡ ok tt
request_id_verify_moved o private_hex public_hex user request_id signature c t n now law pair h
      spelled signed fresh =
    verify_same_text o private_hex public_hex user request_id (print_ℤ (pos n)) signature
      (request_data user (request_id ++ c ∷ []) (print_ℤ (pos t))) now n law pair
      (sign_ok o user (request_id ++ c ∷ []) (pos t) private_hex signature signed)
      (ap (λ (l : Bytes). user ++ (request_id_magic ++ l))
        (ap (λ (l : Bytes). request_id ++ l) spelled
          ∙ sym (append_assoc request_id (c ∷ []) (print_ℤ (pos t)))))
      (unfold print_ℤ in parse_print n h)
    ∙ ground arith

char_table :
    all_below 62 (λ i. strchr requestid_allowed_chars (char_at requestid_allowed_chars i)) ≡ true
unfolding all_below strchr
char_table = refl

map_allowed :
    (is_signed : Bool) (random : Bytes)
    → check_allowed_chars (map (pick_char is_signed) random) requestid_allowed_chars ≡ true
unfolding check_allowed_chars
map_allowed is_signed [] = refl
map_allowed is_signed (b ∷ random) =
    rw
      (
        all_below_sound 62 (λ i. strchr requestid_allowed_chars (char_at requestid_allowed_chars i))
            (as_size_t is_signed b % 62) char_table (omega arith),
        map_allowed is_signed random,
      )
      refl

length-map : (f : ℕ → ℕ) (xs : Bytes) → length (map f xs) ≡ length xs
length-map f [] = refl
length-map f (x ∷ xs) = ap suc (length-map f xs)

-- Of 64 random bytes request_id_generate makes an id of 64 characters that request_id_sign does not
-- refuse, whether `char` is signed or not; of fewer it makes none.
pub request_id_generate_allowed :
    (is_signed : Bool) (random : Bytes)
    → (length random ≡ 64
        → (id : Bytes) × (request_id_generate is_signed random ≡ some id)
          × (length id ≡ 64)
          × (request_id_verify_chars id ≡ true))
      × (length random ≢ 64 → request_id_generate is_signed random ≡ none)
unfolding request_id_generate request_id_verify_chars
request_id_generate_allowed is_signed random = (
  λ h. (
    map (pick_char is_signed) random,
    ground arith,
    length-map (pick_char is_signed) random ∙ h,
    map_allowed is_signed random,
  ),
  λ h. ground arith,
)
