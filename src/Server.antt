-- ===== src/Server.antt =====
-- server/src: what the handlers share, the requests, the responses and the paths of the files.
pub mod Load
pub mod Handler
pub mod LogUpload
pub mod Router
pub mod LoadLaws
pub mod Reopen
pub mod ReloadLaws
pub mod HandlerLaws
pub mod RouterLaws
use dumbos_dumbos.Base.{ℕ, Bool, Option, List, [], ◌∷◌, ◌++◌, Bytes, codes}
use dumbos_dumbos.Base.Int.{ℤ}

-- The query arguments of a request, as MHD_lookup_connection_value finds them.
pub record Request : Type 0 where
  pub code : Option Bytes
  pub user : Option Bytes
  pub requestid : Option Bytes
  pub requestsig : Option Bytes
  pub requesttime : Option Bytes

-- What is kept of a request between the calls of its handler; body_len is the length of the body.
pub record RequestState : Type 0 where
  pub body : Bytes
  pub body_too_large : Bool
  pub allocation_failed : Bool

-- The readings of the system clock in the order in which one request takes them: in
-- request_id_verify, in dp_get_expire_or_set and in dp_is_expired.
pub record Times : Type 0 where
  pub at_verify : ℤ
  pub at_set : ℤ
  pub at_compare : ℤ

abbrev pub userdata_prefix : Bytes
userdata_prefix = codes "user/"

abbrev pub code_file_path : Bytes
code_file_path = codes "dumb-codes/"

abbrev pub code_file_prefix : Bytes
code_file_prefix = codes "code-"

abbrev pub server_user_pubkey_file : Bytes
server_user_pubkey_file = codes "pubkey"

abbrev pub path_max : ℕ
path_max = 4096
