-- ===== src/Server/LogUpload.antt =====
-- server/src/dumb_log.c, dumb_log_upload_handler.
use dumbos_dumbos.Base.{
  Bool, true, false, ◌||◌, not, Option, none, some, Bytes, codes, Result, ok, err, if◌then◌else◌,
  ◌≡◌, refl,
}
use dumbos_dumbos.Base.Int.{ℤ}
use dumbos_dumbos.Chars.{check_allowed_chars, dumbos_user_allowed_chars}
use dumbos_dumbos.Decimal.{parse_long_long}
use dumbos_dumbos.Ed25519.{Openssl, ed25519_verify_hex, ◌>>=◌}
use dumbos_dumbos.RequestId.{request_id_verify, request_data, check_time}
use dumbos_dumbos.Files.{Files, lookup}
use dumbos_dumbos.Server.{Request, RequestState}
use dumbos_dumbos.Server.Handler.{read_pubkey, user_pubkey_path, is_ok}

-- 200 "ok", or "404 Not Found".
pub data Reply : Type 0 where
  accepted rejected : Reply

module _ (o : Openssl) (now : ℤ) where
  -- The time that is verified is the text "TODO".
  pub verify_upload : Bytes → Bytes → Bytes → Option Bytes → Reply
  verify_upload user requestid requestsig none = rejected
  verify_upload user requestid requestsig (some pubkey) =
      if is_ok (request_id_verify o user requestid (codes "TODO") requestsig pubkey now)
      then accepted
      else rejected

  pub check_upload : Bytes → Bytes → Bytes → RequestState → Files → Reply
  unfolding verify_upload
  check_upload user requestid requestsig state fs =
      if not (check_allowed_chars user dumbos_user_allowed_chars)
      then rejected
      else if state.body_too_large || state.allocation_failed
      then rejected
      else verify_upload user requestid requestsig (read_pubkey (lookup (user_pubkey_path user) fs))

  upload_arguments : RequestState → Files → Option Bytes → Option Bytes → Option Bytes → Reply
  unfolding check_upload
  upload_arguments state fs none requestsig requestid = rejected
  upload_arguments state fs (some user) none requestid = rejected
  upload_arguments state fs (some user) (some requestsig) none = rejected
  upload_arguments state fs (some user) (some requestsig) (some requestid) =
      check_upload user requestid requestsig state fs

  unfoldable pub dumb_log_upload_handler : Request → RequestState → Files → Reply
  unfolding upload_arguments
  dumb_log_upload_handler r state fs = upload_arguments state fs r.user r.requestsig r.requestid

  todo_fails :
      (user requestid requestsig pubkey : Bytes)
      → is_ok (request_id_verify o user requestid (codes "TODO") requestsig pubkey now) ≡ false
  unfolding request_id_verify parse_long_long
  todo_fails user requestid requestsig pubkey =
      decided (ed25519_verify_hex o pubkey (request_data user requestid (codes "TODO")) requestsig)
    where
      decided :
          (r : Result (Unit {0}))
          → is_ok (r >>= λ _. check_time now (parse_long_long (codes "TODO"))) ≡ false
      decided (ok u) = refl
      decided (err e) = refl

  verify_upload_rejects :
      (user requestid requestsig : Bytes) (pubkey : Option Bytes)
      → verify_upload user requestid requestsig pubkey ≡ rejected
  unfolding verify_upload
  verify_upload_rejects user requestid requestsig none = refl
  verify_upload_rejects user requestid requestsig (some pubkey) =
      rw (todo_fails user requestid requestsig pubkey)

  check_upload_rejects :
      (user requestid requestsig : Bytes) (state : RequestState) (fs : Files)
      → check_upload user requestid requestsig state fs ≡ rejected
  unfolding check_upload
  check_upload_rejects user requestid requestsig state fs =
      rw
        (verify_upload_rejects user requestid requestsig
          (read_pubkey (lookup (user_pubkey_path user) fs)))
        (either (not (check_allowed_chars user dumbos_user_allowed_chars))
          (state.body_too_large || state.allocation_failed))
    where
      either : (a b : Bool) → (if a then rejected else if b then rejected else rejected) ≡ rejected
      either true b = refl
      either false true = refl
      either false false = refl

  upload_arguments_rejects :
      (state : RequestState) (fs : Files) (user requestsig requestid : Option Bytes)
      → upload_arguments state fs user requestsig requestid ≡ rejected
  unfolding upload_arguments
  upload_arguments_rejects state fs none requestsig requestid = refl
  upload_arguments_rejects state fs (some user) none requestid = refl
  upload_arguments_rejects state fs (some user) (some requestsig) none = refl
  upload_arguments_rejects state fs (some user) (some requestsig) (some requestid) =
      check_upload_rejects user requestid requestsig state fs

  -- No log upload is ever accepted: whatever the request, its signature and the files, the handler
  -- answers 404, since "TODO" is not a time.
  pub dumb_log_upload_handler_rejects :
      (r : Request) (state : RequestState) (fs : Files)
      → dumb_log_upload_handler r state fs ≡ rejected
  unfolding dumb_log_upload_handler
  dumb_log_upload_handler_rejects r state fs =
      upload_arguments_rejects state fs r.user r.requestsig r.requestid
