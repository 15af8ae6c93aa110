-- ===== src/Daemon/SecretCode.antt =====
-- daemon/secret_code.c, secret_code, with alloc_construct_request_URL of daemon/util.c and the
-- servers of daemon/daemon.c. The network, which tells the time and downloads a URL, is an argument.
use dumbos_dumbos.Base.{
  ℕ, ◌+◌, ◌-◌, ◌%◌, ◌^◌, ◌≡◌, refl, sym, subst, Bool, false, List, [], ◌∷◌, ◌++◌, append-nil,
  Option, none, some, Bytes, codes, Result, ok, err, ltb, ◌==◌, if◌then◌else◌, length, Bool-cases,
  inl, inr, ok-injective, ◌∙◌,
}
use dumbos_dumbos.Base.Int.{ℤ, pos}
use dumbos_dumbos.Base.Errno.{einval, enametoolong, eproto, econnrefused}
use dumbos_dumbos.Decimal.{print_ℤ}
use dumbos_dumbos.Ed25519.{Openssl}
use dumbos_dumbos.Payload.{base_size, of_bytes}
use dumbos_dumbos.RequestId.{request_id_generate, request_id_sign}
use dumbos_dumbos.User.{UserData, username_of, priv_key_of, dumbos_alloc_get_user}
use dumbos_dumbos.Daemon.{Device, Phone, write_message}
use dumbos_dumbos.Daemon.Payloads.{Handled, handle_one_payload}
use dumbos_dumbos.Daemon.PayloadLaws.{Ends, handle_one_payload-Ends}
use dumbos_dumbos.Daemon.Authority.{Grown, handle_one_payload-Grown}

-- `default_server[strlen(default_server) - 1] != '/'`
abbrev pub ends_in_slash : Bytes → Bool
ends_in_slash [] = false
ends_in_slash (c ∷ []) = c == b'/'
ends_in_slash (c ∷ d ∷ s) = ends_in_slash (d ∷ s)

unfoldable pub alloc_dumb_server_append : Bytes → Bytes → Result Bytes
alloc_dumb_server_append server s =
    if length server == 0
    then err einval
    else ok (server ++ ((if ends_in_slash server then [] else b'/' ∷ []) ++ s))

-- `none` is a code of NULL.
unfoldable pub alloc_construct_request_url :
    Bytes → Bytes → Bytes → Bytes → ℤ → Option Bytes → Bytes
alloc_construct_request_url base user requestid requestsig net_time code =
    base
    ++ (codes "?code="
        ++ ((elim code [ none ↦ codes "dummy" | some c ↦ c ])
            ++ (codes "&user="
                ++ (user
                    ++ (codes "&requestid="
                        ++ (requestid
                            ++ (codes "&requestsig="
                                ++ (requestsig ++ (codes "&time=" ++ print_ℤ net_time)))))))))

-- What the daemon needs: the network, its user and its settings. `random` is what getrandom(2) gave,
-- `random_errno` the errno when that was too little, and `now` the clock of the phone.
pub record Net : Type 0 where
  pub openssl : Openssl
  pub pubkey : Bytes
  pub phone : Phone
  pub now : ℤ
  pub network_time : Result ℤ
  pub user_file : Option Bytes
  pub random : Bytes
  pub random_errno : ℕ
  pub char_is_signed : Bool
  pub tmpdir : Bytes
  pub code_server : Bytes
  pub download_url : Bytes → Result Bytes

-- In `size_t`.
abbrev pub secret_len_max : Bytes → ℕ
secret_len_max tmpdir = (4096 + 2 ^ 64 - (length tmpdir + 1)) % 2 ^ 64

abbrev pub refused : ℕ → Bytes → Device → Handled
refused code message d = some (pos code, write_message message d)

-- What the client is told of a failed download.
abbrev pub download_failed : ℕ → Bytes
download_failed e =
    if e == econnrefused
    then codes "check your connection"
    else if e == eproto
    then codes "invalid code"
    else codes "failed to download, either bad code or bad connection"

module _ (net : Net) where
  abbrev pub downloaded : ℤ → Device → Result Bytes → Handled
  downloaded time d (err e) = refused e (download_failed e) d
  downloaded time d (ok payload) =
      if ltb (length payload) base_size
      then refused einval (codes "invalid") d
      else handle_one_payload net.openssl net.pubkey net.phone net.now time (of_bytes payload)
          (length payload - base_size) d

  abbrev pub signed : Bytes → ℤ → Device → UserData → Bytes → Result Bytes → Handled
  signed code time d u requestid (err e) = some (pos e, d)
  signed code time d u requestid (ok sig) =
      let url =
        alloc_construct_request_url net.code_server (username_of u) requestid sig time
          (some code) in
      downloaded time (write_message (codes "downloading...") d) (net.download_url url)

  abbrev pub with_id : Bytes → ℤ → Device → UserData → Option Bytes → Handled
  with_id code time d u none = some (pos net.random_errno, d)
  with_id code time d u (some requestid) =
      signed code time d u requestid
        (request_id_sign net.openssl (username_of u) requestid time (priv_key_of u))

  abbrev pub with_user : Bytes → ℤ → Device → Result UserData → Handled
  with_user code time d (err e) = some (pos e, d)
  with_user code time d (ok u) =
      with_id code time d u (request_id_generate net.char_is_signed net.random)

  abbrev pub with_time : Bytes → Device → Result ℤ → Handled
  with_time code d (err e) =
      refused e (codes "failed to get time from network (check your connection?)") d
  with_time code d (ok time) = with_user code time d (dumbos_alloc_get_user net.user_file)

  abbrev pub one_code : Bytes → Device → Handled
  one_code code d =
      if ltb (secret_len_max net.tmpdir) (length code)
      then refused enametoolong (codes "secret_code: secret too long") d
      else with_time code d net.network_time

  unfoldable pub secret_code : List Bytes → Device → Handled
  secret_code [] d = refused einval (codes "secret_code: expected exactly ONE code\n") d
  secret_code (code ∷ []) d = one_code code d
  secret_code (code ∷ more ∷ args) d =
      refused einval (codes "secret_code: expected exactly ONE code\n") d

  -- A property of what was handled, which holds when nothing but messages was added, and of what
  -- handle_one_payload does at the network's time.
  module _ (P : Handled → Type 0) (d : Device)
      (plain : (code : ℤ) (ms : List Bytes) → P (some (code, record d { messages = ms }))) where
    abbrev Handles : ℤ → Type 0
    Handles time =
        (payload : Bytes) (ms : List Bytes)
        → P (
            handle_one_payload net.openssl net.pubkey net.phone net.now time (of_bytes payload)
              (length payload - base_size) (record d { messages = ms }))

    downloaded-Keeps :
        (time : ℤ) (ms : List Bytes) (r : Result Bytes)
        → Handles time
        → P (downloaded time (record d { messages = ms }) r)
    downloaded-Keeps time ms (err e) k = plain (pos e) _
    downloaded-Keeps time ms (ok payload) k = elim (Bool-cases (ltb (length payload) base_size)) [
      | inl small ↦ rw small (plain (pos einval) _)
      | inr whole ↦ rw whole (k payload ms)
    ]

    signed-Keeps :
        (code : Bytes) (time : ℤ) (u : UserData) (id : Bytes) (r : Result Bytes)
        → Handles time
        → P (signed code time d u id r)
    signed-Keeps code time u id (err e) k = plain (pos e) d.messages
    signed-Keeps code time u id (ok sig) k =
        downloaded-Keeps time (write_message (codes "downloading...") d).messages
          (net.download_url
            (alloc_construct_request_url net.code_server (username_of u) id sig time (some code)))
          k

    with_id-Keeps :
        (code : Bytes) (time : ℤ) (u : UserData) (r : Option Bytes)
        → Handles time
        → P (with_id code time d u r)
    with_id-Keeps code time u none k = plain (pos net.random_errno) d.messages
    with_id-Keeps code time u (some id) k =
        signed-Keeps code time u id
          (request_id_sign net.openssl (username_of u) id time (priv_key_of u)) k

    with_user-Keeps :
        (code : Bytes) (time : ℤ) (r : Result UserData) → Handles time → P (with_user code time d r)
    with_user-Keeps code time (err e) k = plain (pos e) d.messages
    with_user-Keeps code time (ok u) k =
        with_id-Keeps code time u (request_id_generate net.char_is_signed net.random) k

    with_time-Keeps :
        (code : Bytes) (r : Result ℤ)
        → ((time : ℤ) → r ≡ ok time → Handles time)
        → P (with_time code d r)
    with_time-Keeps code (err e) k = plain (pos e) _
    with_time-Keeps code (ok time) k =
        with_user-Keeps code time (dumbos_alloc_get_user net.user_file) (k time refl)

    secret_code-Keeps :
        (argv : List Bytes)
        → ((time : ℤ) → net.network_time ≡ ok time → Handles time)
        → P (secret_code argv d)
    unfolding secret_code
    secret_code-Keeps [] k = plain (pos einval) _
    secret_code-Keeps (code ∷ []) k =
        elim (Bool-cases (ltb (secret_len_max net.tmpdir) (length code))) [
          | inl long ↦ rw long (plain (pos enametoolong) _)
          | inr short ↦ rw short (with_time-Keeps code net.network_time k)
        ]
    secret_code-Keeps (code ∷ more ∷ args) k = plain (pos einval) _

  -- The command always answers, whatever the arguments are and whatever the network gives.
  pub secret_code-Ends : (argv : List Bytes) (d : Device) → Ends (secret_code argv d)
  secret_code-Ends argv d =
      secret_code-Keeps (λ r. Ends r) d (λ code ms. tt) argv
        (λ time e payload ms.
          handle_one_payload-Ends net.openssl net.pubkey net.phone net.now time (of_bytes payload)
            (length payload - base_size) (record d { messages = ms }))

  -- Every action that the phone performs for a secret code is named by a payload whose signature was
  -- verified and that was not expired at the time of the network, whatever was downloaded.
  pub secret_code-Grown :
      (time : ℤ) (argv : List Bytes) (d : Device)
      → net.network_time ≡ ok time
      → Grown net.openssl net.pubkey net.phone net.now time d (secret_code argv d)
  secret_code-Grown time argv d e =
      secret_code-Keeps (λ r. Grown net.openssl net.pubkey net.phone net.now time d r) d
        (λ code ms. ([], sym (append-nil d.calls), tt)) argv
        (λ t f payload ms.
          subst
            (λ (x : ℤ). Grown net.openssl net.pubkey net.phone net.now time d (
              handle_one_payload net.openssl net.pubkey net.phone net.now x (of_bytes payload)
                (length payload - base_size) (record d { messages = ms })))
            (ok-injective (sym e ∙ f))
            (handle_one_payload-Grown net.openssl net.pubkey net.phone net.now time
              (of_bytes payload) (length payload - base_size) (record d { messages = ms })))
