-- ===== src/Server/Load.antt =====
-- server/src/dp_load.c, dp_malloc_check_load.
use dumbos_dumbos.Base.{
  ℕ, Bool, true, false, ◌||◌, not, ◌∷◌, ◌++◌, Option, none, some, Bytes, Result, ok, err, leb, ltb,
  if◌then◌else◌, length,
}
use dumbos_dumbos.Chars.{check_allowed_chars, secret_code_allowed_chars}
use dumbos_dumbos.Ed25519.{Openssl}
use dumbos_dumbos.Payload.{Payload, base_size, to_bytes, of_bytes}
use dumbos_dumbos.Payload.Expire.{dp_is_expired}
use dumbos_dumbos.Payload.Sign.{dp_sign}
use dumbos_dumbos.Files.{Files, lookup, insert}
use dumbos_dumbos.Server.{Times, userdata_prefix, code_file_path, code_file_prefix, path_max}

abbrev pub shared_path : Bytes → Bytes
shared_path code = code_file_path ++ (code_file_prefix ++ code)

abbrev pub user_path : Bytes → Bytes → Bytes
user_path username code = userdata_prefix ++ (username ++ (b'/' ∷ (code_file_prefix ++ code)))

-- The file that is opened, with its contents: the user's own before the shared one.
abbrev pub or_shared : Bytes → Files → Option Bytes → Bytes → Option (Bytes × Bytes)
or_shared code fs (some content) own = some (own, content)
or_shared code fs none own = elim (lookup (shared_path code) fs) [
  | none ↦ none
  | some content ↦ some (shared_path code, content)
]

unfoldable pub open_code : Bytes → Bytes → Files → Option (Bytes × Bytes)
open_code username code fs =
    or_shared code fs (lookup (user_path username code) fs) (user_path username code)

-- A failed dp_sign gives NULL.
abbrev pub signed_payload : Result (Unit {0}) × Payload → Option Bytes
signed_payload (ok _, p) = some (to_bytes p)
signed_payload (err e, p) = none

-- Behind dp_is_expired: the payload goes back to its file, with its expiry fixed, and is signed.
abbrev pub write_and_sign :
    Openssl → Bytes → ℕ → Bytes → Files → Bool × Payload → Option Bytes × Files
write_and_sign o path size key fs (true, p) = (none, fs)
write_and_sign o path size key fs (false, p) =
    (signed_payload (dp_sign o p size key), insert path (to_bytes p) fs)

unfoldable pub load_file :
    Openssl → Bytes → Times → Files → Option (Bytes × Bytes) → Option Bytes × Files
load_file o key t fs none = (none, fs)
load_file o key t fs (some (path, content)) =
    let size = length content in
    if ltb size base_size
    then (none, fs)
    else write_and_sign o path size key fs (dp_is_expired t.at_set t.at_compare (of_bytes content))

unfoldable pub dp_malloc_check_load :
    Openssl → Bytes → Bytes → Bytes → Times → Files → Option Bytes × Files
unfolding load_file open_code
dp_malloc_check_load o code username key t fs =
    if not (check_allowed_chars code secret_code_allowed_chars)
    then (none, fs)
    else if leb path_max (length (shared_path code))
        || leb path_max (length (user_path username code))
    then (none, fs)
    else load_file o key t fs (open_code username code fs)
