-- ===== src/Payload.antt =====
-- dumb.h and dumbpayload.c: struct DUMB_PAYLOAD and the functions on it.
-- The struct is its fields as byte arrays, the three bytes of padding before data_size included,
-- followed by the bytes that the buffer holds behind the struct. Memory allocation is taken to
-- succeed.
pub mod Fields
pub mod Expire
pub mod Sign
pub mod Layout
pub mod FieldLaws
pub mod Store
pub mod ExpireField
pub mod ExpireLaws
pub mod SignLaws
use dumbos_dumbos.Base.{
  ℕ, ◌+◌, ◌*◌, ◌/◌, ◌%◌, ◌^◌, ◌≡◌, List, [], ◌∷◌, ◌++◌, Bytes, length, take, drop, replicate,
}
use dumbos_dumbos.Ed25519.{signature_hex_size}

abbrev pub expire_size : ℕ
expire_size = 16

abbrev pub command_size : ℕ
command_size = 16

abbrev pub default_expire_time : ℕ
default_expire_time = 60

abbrev pub dumb_payload_data_max_size : ℕ
dumb_payload_data_max_size = 512 * 1024 * 1024

pub record Payload : Type 0 where
  pub signature : Bytes
  pub expire : Bytes
  pub command : Bytes
  -- the compiler aligns data_size to 4 bytes
  pub padding : Bytes
  -- in network byte order
  pub data_size : Bytes
  pub payload : Bytes

-- sizeof(struct DUMB_PAYLOAD): 129 + 16 + 16 + 3 + 4.
abbrev pub base_size : ℕ
base_size = 168

unfoldable pub dp_get_base_size : ℕ
dp_get_base_size = base_size

-- The arrays have their sizes.
pub record IsPayload (p : Payload) : Type 0 where
  pub signature_length : length p.signature ≡ signature_hex_size
  pub expire_length : length p.expire ≡ expire_size
  pub command_length : length p.command ≡ command_size
  pub padding_length : length p.padding ≡ 3
  pub data_size_length : length p.data_size ≡ 4

-- The bytes at the address of the struct.
unfoldable pub to_bytes : Payload → Bytes
to_bytes p = p.signature ++ (p.expire ++ (p.command ++ (p.padding ++ (p.data_size ++ p.payload))))

-- The cast of a buffer to `struct DUMB_PAYLOAD *`.
unfoldable pub of_bytes : Bytes → Payload
of_bytes b = record {
  signature = take 129 b;
  expire = take 16 (drop 129 b);
  command = take 16 (drop 16 (drop 129 b));
  padding = take 3 (drop 16 (drop 16 (drop 129 b)));
  data_size = take 4 (drop 3 (drop 16 (drop 16 (drop 129 b))));
  payload = drop 4 (drop 3 (drop 16 (drop 16 (drop 129 b))));
}

-- ntohl and htonl of the four bytes.
abbrev pub ntohl : Bytes → ℕ
ntohl (a ∷ b ∷ c ∷ d ∷ _) = a * 2 ^ 24 + b * 2 ^ 16 + c * 2 ^ 8 + d
ntohl _ = 0

abbrev pub htonl : ℕ → Bytes
htonl n = n / 2 ^ 24 % 256 ∷ n / 2 ^ 16 % 256 ∷ n / 2 ^ 8 % 256 ∷ n % 256 ∷ []
