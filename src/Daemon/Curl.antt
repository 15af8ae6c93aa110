-- ===== src/Daemon/Curl.antt =====
-- daemon/curl.c, download_url without a certificate, and the callback that gathers a download. libcurl
-- and malloc(3) are arguments.
pub mod Whole
pub mod Complete
use dumbos_dumbos.Base.{
  ℕ, ◌+◌, ◌-◌, ◌*◌, ◌/◌, ◌%◌, Bool, true, false, List, [], ◌∷◌, ◌++◌, Bytes, codes, Result, ok, err,
  ltb, ◌==◌, ◌&&◌, ◌||◌, not, if◌then◌else◌, length, take,
}
use dumbos_dumbos.Base.Errno.{
  eio, enomem, eacces, einval, epipe, eloop, eproto, eoverflow, eprotonosupport, econnreset,
  etimedout, econnrefused, ehostunreach,
}

-- The codes of libcurl that are told apart; `other` is each further one.
pub data Curlcode : Type 0 where
  curle_ok unsupported_protocol url_malformat couldnt_resolve_proxy couldnt_resolve_host : Curlcode
  couldnt_connect operation_timedout remote_access_denied ssl_connect_error : Curlcode
  ssl_cacert_badfile peer_failed_verification http_returned_error too_many_redirects : Curlcode
  recv_error send_error out_of_memory write_error other : Curlcode

unfoldable pub curlcode_to_errno : Curlcode → ℕ
curlcode_to_errno curle_ok = 0
curlcode_to_errno unsupported_protocol = eprotonosupport
curlcode_to_errno url_malformat = einval
curlcode_to_errno couldnt_resolve_proxy = ehostunreach
curlcode_to_errno couldnt_resolve_host = ehostunreach
curlcode_to_errno couldnt_connect = econnrefused
curlcode_to_errno operation_timedout = etimedout
curlcode_to_errno remote_access_denied = eacces
curlcode_to_errno ssl_connect_error = eacces
curlcode_to_errno ssl_cacert_badfile = eacces
curlcode_to_errno peer_failed_verification = eacces
curlcode_to_errno http_returned_error = eproto
curlcode_to_errno too_many_redirects = eloop
curlcode_to_errno recv_error = econnreset
curlcode_to_errno send_error = epipe
curlcode_to_errno out_of_memory = enomem
curlcode_to_errno write_error = eio
curlcode_to_errno other = eio

-- `rc == CURLE_OK`
unfoldable pub is_curle_ok : Curlcode → Bool
is_curle_ok curle_ok = true
is_curle_ok _ = false

-- `strncmp(s, prefix, strlen(prefix)) == 0`
unfoldable pub starts_with : Bytes → Bytes → Bool
starts_with [] s = true
starts_with (c ∷ prefix) [] = false
starts_with (c ∷ prefix) (d ∷ s) = (c == d) && starts_with prefix s

-- `strstr(s, needle) != NULL`
unfoldable pub strstr : Bytes → Bytes → Bool
unfolding starts_with
strstr [] needle = starts_with needle []
strstr (c ∷ s) needle = starts_with needle (c ∷ s) || strstr s needle

unfoldable pub starts_with_http_scheme : Bytes → Bool
unfolding starts_with
starts_with_http_scheme s = starts_with (codes "http://") s || starts_with (codes "https://") s

abbrev pub size_max : ℕ
size_max = 18446744073709551615

-- `allocated` tells whether strdup(3) or malloc(3) gives memory.
unfoldable pub make_effective_url : Bool → Bytes → Result Bytes
unfolding starts_with_http_scheme strstr
make_effective_url allocated url =
    if length url == 0
    then err einval
    else if starts_with_http_scheme url
    then (if allocated then ok url else err enomem)
    else if strstr url (codes "://")
    then err eprotonosupport
    else if ltb (size_max - 7 - 1) (length url)
    then err eoverflow
    else if allocated
    then ok (codes "http://" ++ url)
    else err enomem

-- struct download_buffer: the first `size` bytes of `data`, and `err`.
pub record DownloadBuffer : Type 0 where
  pub data' : Bytes
  pub err' : ℕ

abbrev pub no_download : DownloadBuffer
no_download = record { data' = []; err' = 0 }

-- `allocated` tells whether realloc(3) gives a buffer; `ptr` has elem_size * elem_count bytes.
unfoldable pub write_callback : Bool → Bytes → ℕ → ℕ → DownloadBuffer → ℕ × DownloadBuffer
write_callback allocated ptr elem_size elem_count buf =
    let incoming = (elem_size * elem_count) % 18446744073709551616 in
    if not (elem_count == 0) && ltb (size_max / elem_count) elem_size
    then (0, record buf { err' = eoverflow })
    else if incoming == 0
    then (0, buf)
    else if ltb (size_max - incoming) (length buf.data')
    then (0, record buf { err' = eoverflow })
    else if allocated
    then (incoming, record buf { data' = buf.data' ++ take incoming ptr })
    else (0, record buf { err' = enomem })

-- What comes for a URL: the pieces that libcurl hands to the callback, each with what realloc(3) does
-- then, and the code behind the last one.
pub record Transfer : Type 0 where
  pub pieces : List (Bool × Bytes)
  pub code : Curlcode

-- What curl_easy_perform documents of its calls of the callback: elem_size is 1, and when the callback
-- does not take a whole piece, that is the last one and the transfer ends with CURLE_WRITE_ERROR.
unfoldable pub perform : List (Bool × Bytes) → Curlcode → DownloadBuffer → Curlcode × DownloadBuffer
unfolding write_callback
perform [] code buf = (code, buf)
perform ((allocated, piece) ∷ pieces) code buf =
    let (taken, buf') = write_callback allocated piece 1 (length piece) buf in
    let rest = perform pieces code buf' in
    if taken == length piece then rest else (write_error, buf')

-- The first curl_easy_setopt that fails.
unfoldable pub set_options : List Curlcode → Curlcode
unfolding is_curle_ok
set_options [] = curle_ok
set_options (rc ∷ rcs) = let rest = set_options rcs in if is_curle_ok rc then rest else rc

-- What libcurl does: curl_global_init and curl_easy_init succeed or not, the codes of the calls of
-- curl_easy_setopt in their order, and the transfer for each URL. Of malloc(3): whether it gives the
-- URL's copy and the one byte for an empty body.
pub record Curl : Type 0 where
  pub url_allocated : Bool
  pub global_init : Bool
  pub easy_init : Bool
  pub options : List Curlcode
  pub transfer : Bytes → Transfer
  pub one_allocated : Bool

-- `fail:` with saved_errno.
abbrev pub fail : ℕ → Result Bytes
fail saved_errno = err (if saved_errno == 0 then eio else saved_errno)

module _ (c : Curl) where
  -- Behind curl_easy_perform.
  unfoldable pub performed : Curlcode × DownloadBuffer → Result Bytes
  unfolding is_curle_ok
  performed (rc, buf) =
      if is_curle_ok rc
      then (if (length buf.data' == 0) && not c.one_allocated then fail enomem else ok buf.data')
      else fail (if buf.err' == 0 then curlcode_to_errno rc else buf.err')

  unfoldable pub fetch : Bytes → Result Bytes
  unfolding set_options perform performed
  fetch effective_url =
      if not c.global_init
      then err enomem
      else if not c.easy_init
      then err enomem
      else if is_curle_ok (set_options c.options)
      then (let t = c.transfer effective_url in performed (perform t.pieces t.code no_download))
      else fail (curlcode_to_errno (set_options c.options))

  abbrev pub with_url : Result Bytes → Result Bytes
  with_url (err e) = err e
  with_url (ok effective_url) = fetch effective_url

  unfoldable pub download_url : Bytes → Result Bytes
  unfolding make_effective_url fetch
  download_url url =
      if length url == 0 then err einval else with_url (make_effective_url c.url_allocated url)
