-- ===== src/Payload/Fields.antt =====
-- dumbpayload.c: a new payload, the command, expire and signature strings, the data and its size.
use dumbos_dumbos.Base.{
  ℕ, ◌+◌, Bool, false, [], ◌∷◌, ◌++◌, Option, none, some, Bytes, c_str, Result, ok, err, leb, ltb,
  ◌==◌, if◌then◌else◌, length, take, replicate, set,
}
use dumbos_dumbos.Base.Errno.{einval, eoverflow}
use dumbos_dumbos.Ed25519.{signature_hex_size}
use dumbos_dumbos.Payload.{
  Payload, command_size, expire_size, base_size, dumb_payload_data_max_size, ntohl, htonl,
}

unfoldable pub dp_create_new : Payload
dp_create_new = record {
  signature = replicate 129 0;
  expire = replicate 16 0;
  command = replicate 16 0;
  padding = replicate 3 0;
  data_size = replicate 4 0;
  payload = [];
}

-- strnlen(3) and strncpy(3); the string that is copied ends in a NUL.
abbrev pub strnlen : Bytes → ℕ → ℕ
strnlen s n = length (c_str (take n s))

abbrev pub strncpy : Bytes → ℕ → Bytes
strncpy s n = take n (s ++ replicate n 0)

unfoldable pub dp_set_command : Payload → Bytes → Result Payload
dp_set_command p command =
    if leb command_size (strnlen command command_size)
    then err eoverflow
    else ok (record p { command = set (strncpy command command_size) 15 0 })

unfoldable pub dp_get_command : Payload → Result Bytes
dp_get_command p =
    if leb command_size (strnlen p.command command_size)
    then err eoverflow
    else ok (c_str p.command)

unfoldable pub dp_set_expire_str : Payload → Bytes → Result Payload
dp_set_expire_str p expire_string =
    if leb expire_size (strnlen expire_string expire_size)
    then err eoverflow
    else ok (record p { expire = set (strncpy expire_string expire_size) 15 0 })

unfoldable pub dp_get_expire_str : Payload → Result Bytes
dp_get_expire_str p =
    if leb expire_size (strnlen p.expire expire_size) then err eoverflow else ok (c_str p.expire)

-- The string is copied with the NUL behind it.
unfoldable pub dp_set_signature : Payload → Bytes → Result Payload
dp_set_signature p signature =
    if strnlen signature signature_hex_size == 128
    then ok (record p { signature = take signature_hex_size (signature ++ 0 ∷ []) })
    else err einval

-- `none` is NULL; errno is not set.
unfoldable pub dp_get_signature : Payload → Option Bytes
dp_get_signature p =
    if strnlen p.signature signature_hex_size == 128 then some (c_str p.signature) else none

unfoldable pub dp_set_data_size : Payload → ℕ → Result Payload
dp_set_data_size p size =
    if ltb dumb_payload_data_max_size size
    then err eoverflow
    else ok (record p { data_size = htonl size })

unfoldable pub dp_get_data_size : Payload → Result ℕ
dp_get_data_size p =
    let size = ntohl p.data_size in
    if ltb dumb_payload_data_max_size size then err eoverflow else ok size

-- The payload is reallocated to hold `data'` behind the struct.
abbrev pub with_data : Bytes → Result Payload → Result Payload
with_data data' (err e) = err e
with_data data' (ok p) = ok (record p { payload = data' })

unfoldable pub dp_set_data : Payload → Bytes → Result Payload
unfolding dp_set_data_size
dp_set_data p data' = with_data data' (dp_set_data_size p (length data'))

-- `ok none` is NULL with errno 0: there is no data.
abbrev pub data_of : Payload → Result ℕ → Result (Option Bytes)
data_of p (err e) = err e
data_of p (ok size) = if size == 0 then ok none else ok (some (take size p.payload))

unfoldable pub dp_get_data : Payload → Result (Option Bytes)
unfolding dp_get_data_size
dp_get_data p = data_of p (dp_get_data_size p)

-- A copy of what dp_get_data returns.
unfoldable pub dp_malloc_get_data : Payload → Result (Option Bytes)
unfolding dp_get_data
dp_malloc_get_data p = dp_get_data p

abbrev pub size_matches : Result ℕ → ℕ → Bool
size_matches (err e) full = false
size_matches (ok size) full = size + base_size == full

unfoldable pub dp_validate_size : Payload → ℕ → Bool
unfolding dp_get_data_size
dp_validate_size p detected_full_size =
    if ltb detected_full_size base_size
    then false
    else size_matches (dp_get_data_size p) detected_full_size
