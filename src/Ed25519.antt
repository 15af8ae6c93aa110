-- ===== src/Ed25519.antt =====
-- ed25519.c: hex keys and signatures around OpenSSL, which is a parameter.
-- A `char *` argument is the string that it holds; the code never passes NULL here.
pub mod HexLaws
pub mod Laws
use Prim.Native.Nat.{bit_or}
use dumbos_dumbos.Base.{
  ℕ, zero, suc, ◌+◌, ◌-◌, ◌*◌, ◌/◌, ◌%◌, ◌≤◌, Bool, true, false, ◌&&◌, ◌||◌, List, [], ◌∷◌, ◌++◌,
  Option, none, some, Bytes, IsBytes, codes, Result, ok, err, leb, ltb, if◌then◌else◌, ◌==◌, length,
  ◌≡◌,
}
use dumbos_dumbos.Base.Errno.{einval, enospc, eio, eperm}
use dumbos_dumbos.Hex.{char_at}

-- What EVP_DigestVerify reports: 1, 0, or a failure of it or of a call before it.
pub data Verdict : Type 0 where
  valid invalid failed : Verdict

-- OpenSSL on raw keys and signatures. `none` is a failure of one of the calls.
pub record Openssl : Type 0 where
  pub public_of : Bytes → Bytes
  pub digest_sign : Bytes → Bytes → Option Bytes
  pub digest_verify : Bytes → Bytes → Bytes → Verdict

-- What OpenSSL documents of Ed25519: a signature is bytes, the public key of a key of 32 bytes is 32
-- bytes, and the signature of a key is valid for its public key and the signed data.
pub record IsEd25519 (o : Openssl) : Type 0 where
  pub signature_bytes : (key data' sig : Bytes) → o.digest_sign key data' ≡ some sig → IsBytes sig
  pub public_bytes : (key : Bytes) → length key ≡ 32 → IsBytes (o.public_of key)
  pub public_length : (key : Bytes) → length key ≡ 32 → length (o.public_of key) ≡ 32
  pub verify_sign :
      (key data' sig : Bytes)
      → o.digest_sign key data' ≡ some sig
      → o.digest_verify (o.public_of key) sig data' ≡ valid

abbrev pub public_key_size : ℕ
public_key_size = 32

abbrev pub private_key_size : ℕ
private_key_size = 32

abbrev pub signature_size : ℕ
signature_size = 64

abbrev pub public_key_hex_size : ℕ
public_key_hex_size = public_key_size * 2 + 1

abbrev pub private_key_hex_size : ℕ
private_key_hex_size = private_key_size * 2 + 1

abbrev pub signature_hex_size : ℕ
signature_hex_size = signature_size * 2 + 1

-- `none` is -1.
unfoldable pub hex_char_value : ℕ → Option ℕ
hex_char_value c =
    if leb b'0' c && leb c b'9'
    then some (c - b'0')
    else if leb b'a' c && leb c b'f'
    then some (c - b'a' + 10)
    else if leb b'A' c && leb c b'F'
    then some (c - b'A' + 10)
    else none

-- `(unsigned char)((hi << 4) | lo)`, unless a character has no value.
abbrev pub join_nibbles : Option ℕ → Option ℕ → Option ℕ
join_nibbles none lo = none
join_nibbles (some hi) none = none
join_nibbles (some hi) (some lo) = some (bit_or (hi * 16) lo % 256)

abbrev pub store : Option ℕ → Result Bytes → Result Bytes
store none r = err einval
store (some b) (ok bs) = ok (b ∷ bs)
store (some b) (err e) = err e

-- The loop of hex_to_bytes: `out_len` bytes from twice as many characters.
unfoldable pub hex_loop : Bytes → Result Bytes
hex_loop [] = ok []
hex_loop (c ∷ []) = ok []
hex_loop (c ∷ d ∷ hex) = store (join_nibbles (hex_char_value c) (hex_char_value d)) (hex_loop hex)

unfoldable pub hex_to_bytes : Bytes → ℕ → Result Bytes
hex_to_bytes hex out_len = if length hex == out_len * 2 then hex_loop hex else err einval

abbrev pub table : Bytes
table = codes "0123456789abcdef"

unfoldable pub hex_chars : Bytes → Bytes
hex_chars [] = []
hex_chars (b ∷ bs) = char_at table (b / 16 % 16) ∷ char_at table (b % 16) ∷ hex_chars bs

unfoldable pub bytes_to_hex : Bytes → ℕ → Result Bytes
bytes_to_hex bytes out_size =
    if ltb out_size (length bytes * 2 + 1) then err enospc else ok (hex_chars bytes)

infixl 5 ◌>>=◌
abbrev pub ◌>>=◌ {ℓ κ} : {A : Type ℓ} {B : Type κ} → Result A → (A → Result B) → Result B
ok a >>= f = f a
err e >>= f = err e

abbrev pub or_eio : Option Bytes → Result Bytes
or_eio none = err eio
or_eio (some bs) = ok bs

abbrev pub check_size : ℕ → Bytes → Result Bytes
check_size n bs = if length bs == n then ok bs else err eio

-- The hex of the signature, as the string that `signature_hex` gets.
unfoldable pub ed25519_sign_hex : Openssl → Bytes → Bytes → Result Bytes
ed25519_sign_hex o private_hex data' = do
  private_key ← hex_to_bytes private_hex private_key_size
  raw ← or_eio (o.digest_sign private_key data')
  signature ← check_size signature_size raw
  bytes_to_hex signature signature_hex_size

abbrev pub verdict_result : Verdict → Result (Unit {0})
verdict_result Verdict.valid = ok tt
verdict_result Verdict.invalid = err eperm
verdict_result Verdict.failed = err eio

unfoldable pub ed25519_verify_hex : Openssl → Bytes → Bytes → Bytes → Result (Unit {0})
ed25519_verify_hex o public_hex data' signature_hex = do
  public_key ← hex_to_bytes public_hex public_key_size
  signature ← hex_to_bytes signature_hex signature_size
  verdict_result (o.digest_verify public_key signature data')

-- The two keys that OpenSSL generated, or `none` when a call failed, to the hex strings
-- (public, private).
abbrev pub generated : Option (Bytes × Bytes) → Result (Bytes × Bytes)
generated none = err eio
generated (some keys) = ok keys

unfoldable pub ed25519_generate_keypair_hex : Option (Bytes × Bytes) → Result (Bytes × Bytes)
ed25519_generate_keypair_hex keygen = do
  keys ← generated keygen
  public_key ← check_size public_key_size keys.0
  private_key ← check_size private_key_size keys.1
  public_hex ← bytes_to_hex public_key public_key_hex_size
  private_hex ← bytes_to_hex private_key private_key_hex_size
  ok (public_hex, private_hex)
