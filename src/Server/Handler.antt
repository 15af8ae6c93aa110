-- ===== src/Server/Handler.antt =====
-- server/src/dumb_handler.c, dumb_handler, as it is compiled without DEBUG_MODE.
use dumbos_dumbos.Base.{
  Bool, true, false, not, [], ◌∷◌, ◌++◌, Option, none, some, Bytes, codes, Result, ok, err, leb,
  if◌then◌else◌, length, take, c_str,
}
use dumbos_dumbos.Chars.{check_allowed_chars, dumbos_user_allowed_chars, requestid_allowed_chars}
use dumbos_dumbos.Ed25519.{Openssl}
use dumbos_dumbos.RequestId.{request_id_verify}
use dumbos_dumbos.Payload.{of_bytes}
use dumbos_dumbos.Files.{Files, lookup, insert}
use dumbos_dumbos.Server.{Request, Times, userdata_prefix, server_user_pubkey_file}
use dumbos_dumbos.Server.Load.{dp_malloc_check_load}

-- 200 with the bytes of a payload, or "404 Not Found".
pub data Response : Type 0 where
  found : Bytes → Response
  not_found : Response

abbrev pub userpath : Bytes → Bytes
userpath user = userdata_prefix ++ (user ++ b'/' ∷ [])

abbrev pub user_pubkey_path : Bytes → Bytes
user_pubkey_path user = userpath user ++ server_user_pubkey_file

abbrev pub request_data_path : Bytes → Bytes → Bytes
request_data_path user requestid = userpath user ++ (codes "/request-" ++ requestid)

-- The key that fread(3) takes from the file, if the file is long enough.
abbrev pub read_pubkey : Option Bytes → Option Bytes
read_pubkey none = none
read_pubkey (some content) =
    if leb 64 (length content) then some (c_str (take 64 content)) else none

-- What the request file gets: the time, and the command of the payload.
abbrev pub request_entry : Bytes → Bytes → Bytes
request_entry stamp response = stamp ++ (codes "\n" ++ ((of_bytes response).command ++ codes "\n"))

-- The answer behind dp_malloc_check_load.
abbrev pub answer : Bytes → Bytes → Option Bytes × Files → Response × Files
answer path stamp (none, fs) = (not_found, fs)
answer path stamp (some response, fs) =
    (found response, insert path (request_entry stamp response) fs)

abbrev pub is_ok : Result (Unit {0}) → Bool
is_ok (ok _) = true
is_ok (err e) = false

module _ (o : Openssl) (private_key : Bytes) (t : Times) (stamp : Bytes) where
  -- Behind the signature: the request file must be new.
  unfoldable pub claim_request : Bytes → Bytes → Bytes → Files → Option Bytes → Response × Files
  claim_request code user requestid fs (some used) = (not_found, fs)
  claim_request code user requestid fs none =
      let path = request_data_path user requestid in
      answer path stamp (dp_malloc_check_load o code user private_key t (insert path [] fs))

  unfoldable pub verify_request :
      Bytes → Bytes → Bytes → Bytes → Bytes → Files → Option Bytes → Response × Files
  unfolding claim_request
  verify_request code user requestid requestsig requesttime fs none = (not_found, fs)
  verify_request code user requestid requestsig requesttime fs (some pubkey) =
      if is_ok (request_id_verify o user requestid requesttime requestsig pubkey t.at_verify)
      then claim_request code user requestid fs (lookup (request_data_path user requestid) fs)
      else (not_found, fs)

  unfoldable pub check_request : Bytes → Bytes → Bytes → Bytes → Bytes → Files → Response × Files
  unfolding verify_request
  check_request code user requestid requestsig requesttime fs =
      if not (check_allowed_chars user dumbos_user_allowed_chars)
      then (not_found, fs)
      else if not (check_allowed_chars requestid requestid_allowed_chars)
      then (not_found, fs)
      else verify_request code user requestid requestsig requesttime fs
          (read_pubkey (lookup (user_pubkey_path user) fs))

  -- Every argument must be there.
  unfoldable pub arguments :
      Files
      → Option Bytes
      → Option Bytes
      → Option Bytes
      → Option Bytes
      → Option Bytes
      → Response × Files
  unfolding check_request
  arguments fs none user requestid requestsig requesttime = (not_found, fs)
  arguments fs (some code) none requestid requestsig requesttime = (not_found, fs)
  arguments fs (some code) (some user) none requestsig requesttime = (not_found, fs)
  arguments fs (some code) (some user) (some requestid) none requesttime = (not_found, fs)
  arguments fs (some code) (some user) (some requestid) (some requestsig) none = (not_found, fs)
  arguments fs (some code) (some user) (some requestid) (some requestsig) (some requesttime) =
      check_request code user requestid requestsig requesttime fs

  unfoldable pub dumb_handler : Request → Files → Response × Files
  unfolding check_request arguments
  dumb_handler r fs = arguments fs r.code r.user r.requestid r.requestsig r.requesttime
