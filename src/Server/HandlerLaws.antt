-- ===== src/Server/HandlerLaws.antt =====
-- A request id is good for one answer.
use dumbos_dumbos.Base.{
  List, [], ◌∷◌, Option, none, some, Bytes, ◌≡◌, refl, subst, Bool-cases, inl, inr,
}
use dumbos_dumbos.Chars.{check_allowed_chars, dumbos_user_allowed_chars, requestid_allowed_chars}
use dumbos_dumbos.Ed25519.{Openssl}
use dumbos_dumbos.RequestId.{request_id_verify}
use dumbos_dumbos.Files.{Files, lookup, insert, Exists, Exists-insert, lookup-insert_self}
use dumbos_dumbos.Server.{Request, Times}
use dumbos_dumbos.Server.LoadLaws.{dp_malloc_check_load_keeps}
use dumbos_dumbos.Server.Handler.{
  Response, found, not_found, user_pubkey_path, request_data_path, read_pubkey, request_entry,
  answer, is_ok, claim_request, verify_request, check_request, arguments, dumb_handler,
}

-- A 200 leaves the request file behind.
abbrev Claims : Bytes → Response × Files → Type 0
Claims path (found body, fs) = Exists path fs
Claims path (not_found, fs) = Unit

abbrev Keeps : Bytes → Response × Files → Type 0
Keeps path r = Exists path r.1

answer-Claims : (path stamp : Bytes) (r : Option Bytes × Files) → Claims path (answer path stamp r)
answer-Claims path stamp (none, fs) = tt
answer-Claims path stamp (some response, fs) =
    (request_entry stamp response, lookup-insert_self path (request_entry stamp response) fs)

answer-Keeps :
    (path stamp other : Bytes) (r : Option Bytes × Files)
    → Exists other r.1
    → Keeps other (answer path stamp r)
answer-Keeps path stamp other (none, fs) h = h
answer-Keeps path stamp other (some response, fs) h =
    Exists-insert other path (request_entry stamp response) fs h

module _ (o : Openssl) (key : Bytes) (t : Times) (stamp : Bytes) where
  abbrev Arrives : Bytes → Bytes → Bytes → Bytes → Bytes → Files → Response × Files
  Arrives code user requestid requestsig requesttime fs =
      check_request o key t stamp code user requestid requestsig requesttime fs

  claim_request-Claims :
      (code user requestid : Bytes) (fs : Files) (f : Option Bytes)
      → Claims
          (request_data_path user requestid)
          (claim_request o key t stamp code user requestid fs f)
  unfolding claim_request
  claim_request-Claims code user requestid fs (some used) = tt
  claim_request-Claims code user requestid fs none =
      answer-Claims (request_data_path user requestid) stamp _

  claim_request-Keeps :
      (code user requestid other : Bytes) (fs : Files) (f : Option Bytes)
      → Exists other fs
      → Keeps other (claim_request o key t stamp code user requestid fs f)
  unfolding claim_request
  claim_request-Keeps code user requestid other fs (some used) h = h
  claim_request-Keeps code user requestid other fs none h =
      let path = request_data_path user requestid in
      answer-Keeps path stamp other _ (
        dp_malloc_check_load_keeps o code user key t (insert path [] fs) other
          (Exists-insert other path [] fs h))

  -- A property of the answer that holds of a 404 without change and behind the signature.
  check_request_property :
      (P : Response × Files → Type 0) (code user requestid requestsig requesttime : Bytes)
      (fs : Files)
      → P (not_found, fs)
      → P (
          claim_request o key t stamp code user requestid fs
            (lookup (request_data_path user requestid) fs))
      → P (Arrives code user requestid requestsig requesttime fs)
  unfolding check_request verify_request
  check_request_property P code user requestid requestsig requesttime fs refused claim =
      elim (Bool-cases (check_allowed_chars user dumbos_user_allowed_chars)) [
        | inr e ↦ rw e refused
        | inl e ↦ rw e (elim (Bool-cases (check_allowed_chars requestid requestid_allowed_chars)) [
          | inr k ↦ rw k refused
          | inl k ↦ rw k (keyed (read_pubkey (lookup (user_pubkey_path user) fs)))
        ])
      ]
    where
      keyed :
          (pubkey : Option Bytes)
          → P (verify_request o key t stamp code user requestid requestsig requesttime fs pubkey)
      keyed none = refused
      keyed (some pubkey) =
          elim (Bool-cases (
            is_ok (request_id_verify o user requestid requesttime requestsig pubkey t.at_verify))) [
              | inl e ↦ rw e claim
              | inr e ↦ rw e refused
            ]

  arguments_property :
      (P : Response × Files → Type 0) (fs : Files)
      (code user requestid requestsig requesttime : Option Bytes)
      → P (not_found, fs)
      → ((c u i : Bytes)
          → user ≡ some u
          → requestid ≡ some i
          → P (claim_request o key t stamp c u i fs (lookup (request_data_path u i) fs)))
      → P (arguments o key t stamp fs code user requestid requestsig requesttime)
  unfolding arguments check_request
  arguments_property P fs none user requestid requestsig requesttime refused claim = refused
  arguments_property P fs (some code) none requestid requestsig requesttime refused claim = refused
  arguments_property P fs (some code) (some user) none requestsig requesttime refused claim =
      refused
  arguments_property P fs (some code) (some user) (some requestid) none requesttime refused claim =
      refused
  arguments_property P fs (some code) (some user) (some requestid) (some requestsig) none refused
        claim =
      refused
  arguments_property P fs (some code) (some user) (some requestid) (some requestsig)
        (some requesttime) refused claim =
      check_request_property P code user requestid requestsig requesttime fs refused
        (claim code user requestid refl refl)

  dumb_handler_property :
      (P : Response × Files → Type 0) (r : Request) (fs : Files)
      → P (not_found, fs)
      → ((c u i : Bytes)
          → r.user ≡ some u
          → r.requestid ≡ some i
          → P (claim_request o key t stamp c u i fs (lookup (request_data_path u i) fs)))
      → P (dumb_handler o key t stamp r fs)
  unfolding dumb_handler
  dumb_handler_property P r fs refused claim =
      arguments_property P fs r.code r.user r.requestid r.requestsig r.requesttime refused claim

  dumb_handler-Keeps :
      (r : Request) (fs : Files) (other : Bytes)
      → Exists other fs
      → Keeps other (dumb_handler o key t stamp r fs)
  dumb_handler-Keeps r fs other h =
      dumb_handler_property (Keeps other) r fs h
        (λ c u i _ _. claim_request-Keeps c u i other fs (lookup (request_data_path u i) fs) h)

  dumb_handler-Claims :
      (r : Request) (fs : Files) (user requestid : Bytes)
      → r.user ≡ some user
      → r.requestid ≡ some requestid
      → Claims (request_data_path user requestid) (dumb_handler o key t stamp r fs)
  dumb_handler-Claims r fs user requestid hu hi =
      dumb_handler_property (Claims (request_data_path user requestid)) r fs tt (λ c u i eu ei.
        let same_user : u ≡ user = cc (eu, hu) in
        let same_id : i ≡ requestid = cc (ei, hi) in
        let a = claim_request o key t stamp c u i fs (lookup (request_data_path u i) fs) in
        subst (λ (x : Bytes). Claims (request_data_path x requestid) a) same_user
          (subst (λ (x : Bytes). Claims (request_data_path u x) a) same_id
            (claim_request-Claims c u i fs (lookup (request_data_path u i) fs))))

  dumb_handler_refuses :
      (r : Request) (fs : Files) (user requestid : Bytes)
      → r.user ≡ some user
      → r.requestid ≡ some requestid
      → Exists (request_data_path user requestid) fs
      → dumb_handler o key t stamp r fs ≡ (not_found, fs)
  unfolding claim_request
  dumb_handler_refuses r fs user requestid hu hi (used, e) =
      dumb_handler_property (λ a. a ≡ (not_found, fs)) r fs refl
        (λ c u i eu ei.
          let same_user : u ≡ user = cc (eu, hu) in
          let same_id : i ≡ requestid = cc (ei, hi) in rw (same_user, same_id, e) refl)

-- A request at its time, with the text of the time that is logged.
pub record Visit : Type 0 where
  pub times : Times
  pub stamp : Bytes
  pub request : Request

-- The files after a sequence of requests.
unfoldable pub serve : Openssl → Bytes → List Visit → Files → Files
serve o key [] fs = fs
serve o key (v ∷ vs) fs = serve o key vs (dumb_handler o key v.times v.stamp v.request fs).1

serve_keeps :
    (o : Openssl) (key : Bytes) (vs : List Visit) (fs : Files) (other : Bytes)
    → Exists other fs
    → Exists other (serve o key vs fs)
unfolding serve
serve_keeps o key [] fs other h = h
serve_keeps o key (v ∷ vs) fs other h =
    serve_keeps o key vs _ other (dumb_handler-Keeps o key v.times v.stamp v.request fs other h)

claimed :
    (path body : Bytes) (r : Response × Files) → r.0 ≡ found body → Claims path r → Exists path r.1
claimed path body (found b, fs) h c = c
claimed path body (not_found, fs) h c = cc h

-- When a request was answered with a payload, then, whatever requests are served in between, every
-- later request of the same user with the same request id gets 404 and changes no file.
pub dumb_handler_once :
    (o : Openssl) (key : Bytes) (first second : Visit) (between : List Visit) (fs : Files)
    (user requestid body : Bytes)
    → first.request.user ≡ some user
    → first.request.requestid ≡ some requestid
    → second.request.user ≡ some user
    → second.request.requestid ≡ some requestid
    → (dumb_handler o key first.times first.stamp first.request fs).0 ≡ found body
    → let fs' = serve o key (first ∷ between) fs in
      dumb_handler o key second.times second.stamp second.request fs' ≡ (not_found, fs')
unfolding serve
dumb_handler_once o key first second between fs user requestid body fu fi su si answered =
    let path = request_data_path user requestid in
    let left = dumb_handler o key first.times first.stamp first.request fs in
    dumb_handler_refuses o key second.times second.stamp second.request (serve o key between left.1)
      user requestid su si
      (serve_keeps o key between left.1 path (
        claimed path body left answered (
          dumb_handler-Claims o key first.times first.stamp first.request fs user requestid fu fi)))
