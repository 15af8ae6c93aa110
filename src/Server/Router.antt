-- ===== src/Server/Router.antt =====
-- server/src/main.c: the upload of a body in chunks, the routes and the port.
use dumbos_dumbos.Base.{
  ℕ, ◌+◌, ◌*◌, Bool, true, false, [], ◌∷◌, ◌++◌, Option, none, some, Bytes, codes, Result, ok, err,
  ltb, ◌==◌, ◌||◌, if◌then◌else◌, length, streq,
}
use dumbos_dumbos.Decimal.{number, strtoul_value, print_ℤ}
use dumbos_dumbos.Ed25519.{Openssl}
use dumbos_dumbos.Files.{Files}
use dumbos_dumbos.Server.{Request, RequestState, Times}
use dumbos_dumbos.Server.Handler.{Response, found, not_found, dumb_handler}
use dumbos_dumbos.Server.LogUpload.{Reply, accepted, rejected, dumb_log_upload_handler}

abbrev pub max_upload_bytes : ℕ
max_upload_bytes = 64 * 1024

-- calloc(3) of a RequestState.
abbrev pub fresh_state : RequestState
fresh_state = record { body = []; body_too_large = false; allocation_failed = false }

-- `allocated` tells whether realloc(3) gives a buffer.
unfoldable pub append_upload_data : Bool → Bytes → RequestState → RequestState
append_upload_data allocated upload_data state =
    if length upload_data == 0
    then state
    else if ltb max_upload_bytes (length state.body + length upload_data)
    then record state { body_too_large = true }
    else if allocated
    then record state { body = state.body ++ upload_data }
    else record state { allocation_failed = true }

-- A status and a body, as queue_text_response and queue_bytes_response take them.
pub record Answer : Type 0 where
  pub status : ℕ
  pub text : Bytes

abbrev pub not_found_answer : Answer
not_found_answer = record { status = 404; text = codes "404 Not Found\n" }

abbrev pub dumb_answer : Response × Files → Answer × Files
dumb_answer (found body, fs) = (record { status = 200; text = body }, fs)
dumb_answer (not_found, fs) = (not_found_answer, fs)

abbrev pub log_answer : Reply → Answer
log_answer accepted = record { status = 200; text = codes "ok\n" }
log_answer rejected = not_found_answer

-- What libmicrohttpd is told: that the call is done and the request goes on, or the response that is queued.
pub data Outcome : Type 0 where
  goes_on : Outcome
  answers : Answer → Outcome

-- What the handlers share: the server's key, the clock, and the text of the time that is logged.
pub record Site : Type 0 where
  pub openssl : Openssl
  pub private_key : Bytes
  pub times : Times
  pub stamp : Bytes

module _ (s : Site) where
  unfoldable pub handle_get : Bytes → Request → Files → Answer × Files
  handle_get url r fs =
      if streq url (codes "/dumb")
      then dumb_answer (dumb_handler s.openssl s.private_key s.times s.stamp r fs)
      else if streq url (codes "/time")
      then (record { status = 200; text = print_ℤ s.times.at_verify }, fs)
      else (not_found_answer, fs)

  unfoldable pub handle_post : Bytes → Request → RequestState → Files → Answer
  handle_post url r state fs =
      if state.allocation_failed
      then record { status = 500; text = codes "500 Failed to allocate memory\n" }
      else if state.body_too_large
      then record { status = 413; text = codes "413 Request body too large\n" }
      else if streq url (codes "/logupload")
      then log_answer (dumb_log_upload_handler s.openssl s.times.at_verify r state fs)
      else if streq url (codes "/echo")
      then record { status = 200; text = state.body }
      else record { status = 404; text = codes "404 POST route not found\n" }

  -- A GET is answered at once; the chunks of a POST are gathered until a call brings none.
  unfoldable pub with_state :
      Bool → Bytes → Bytes → Request → Bytes → RequestState → Files → Outcome × RequestState × Files
  unfolding handle_get handle_post append_upload_data
  with_state allocated url method r upload_data state fs =
      if streq method (codes "GET")
      then (let (a, fs') = handle_get url r fs in (answers a, state, fs'))
      else if streq method (codes "POST")
      then (if length upload_data == 0
          then (answers (handle_post url r state fs), state, fs)
          else (goes_on, append_upload_data allocated upload_data state, fs))
      else (answers (record { status = 405; text = codes "405 Method Not Allowed\n" }), state, fs)

  -- The first call makes the state.
  unfoldable pub handle_request :
      Bool
      → Bytes
      → Bytes
      → Request
      → Bytes
      → Option RequestState
      → Files
      → Outcome × RequestState × Files
  unfolding with_state
  handle_request allocated url method r upload_data none fs = (goes_on, fresh_state, fs)
  handle_request allocated url method r upload_data (some state) fs =
      with_state allocated url method r upload_data state fs

-- The checks of parse_port behind strtoul.
abbrev pub port_range : Result ℕ → Bytes → Option ℕ
port_range (err e) rest = none
port_range (ok v) [] = if (v == 0) || ltb 65535 v then none else some v
port_range (ok v) (c ∷ rest) = none

abbrev pub port_result : Option (Bool × ℕ × Bytes) → Option ℕ
port_result none = none
port_result (some (negative, n, rest)) = port_range (strtoul_value negative n) rest

unfoldable pub parse_port : Bytes → Option ℕ
unfolding number
parse_port s = port_result (number s)
