-- ===== src/Server/RouterLaws.antt =====
-- server/src/main.c: what a POST answers, however its body is cut, and the port.
use dumbos_dumbos.Base.{
  ℕ, ◌+◌, ◌≤◌, ◌<◌, Bool, true, false, List, [], ◌∷◌, ◌++◌, append_assoc, append-nil, Option, none,
  some, arith, Bytes, codes, Result, ok, err, ltb, if◌then◌else◌, length, length-append, streq, ◌≡◌,
  refl, Bool-cases, inl, inr, ltb→lt, not_zero_test, not_ltb, lt→ltb, le→not_ltb,
}
use dumbos_dumbos.Decimal.{number, strtoul_value, print_ℕ}
use dumbos_dumbos.Decimal.RoundTrip.{number-print_ℕ}
use dumbos_dumbos.Files.{Files}
use dumbos_dumbos.Server.{Request, RequestState}
use dumbos_dumbos.Server.Router.{
  max_upload_bytes, append_upload_data, Answer, Outcome, answers, Site, handle_post, with_state,
  handle_request, port_range, port_result, parse_port,
}

-- The chunks that libmicrohttpd delivers are not empty.
abbrev pub Chunk : Type 0
Chunk = ℕ × Bytes

abbrev pub chunk_bytes : Chunk → Bytes
chunk_bytes (b, bs) = b ∷ bs

abbrev pub whole_body : List Chunk → Bytes
whole_body [] = []
whole_body (c ∷ cs) = chunk_bytes c ++ whole_body cs

overflows :
    (a b c : Bytes)
    → ltb max_upload_bytes (length a + length b) ≡ true
    → max_upload_bytes < length (a ++ (b ++ c))
overflows a b c h = omega (
  arith,
  ltb→lt max_upload_bytes (length a + length b) h,
  length-append {0} a (b ++ c),
  length-append {0} b c,
)

module _ (s : Site) (url : Bytes) (r : Request) where
  -- The calls for the chunks and the last one, without data, when every allocation succeeds.
  unfoldable pub upload : List Chunk → RequestState → Files → Outcome × RequestState × Files
  upload [] state fs = handle_request s true url (codes "POST") r [] (some state) fs
  upload (c ∷ cs) state fs =
      let (_, state', fs') =
        handle_request s true url (codes "POST") r (chunk_bytes c) (some state) fs in
      upload cs state' fs'

  -- All calls of one POST request.
  unfoldable pub post : List Chunk → Files → Outcome × RequestState × Files
  unfolding upload
  post cs fs =
      let (_, state, fs') = handle_request s true url (codes "POST") r [] none fs in
      upload cs state fs'

  abbrev pub too_large : Answer
  too_large = record { status = 413; text = codes "413 Request body too large\n" }

  abbrev gathered : Bytes → RequestState
  gathered body = record { body = body; body_too_large = false; allocation_failed = false }

  abbrev refused : Bytes → RequestState
  refused body = record { body = body; body_too_large = true; allocation_failed = false }

  abbrev pub expected : Bytes → Files → Answer
  expected body fs =
      if ltb max_upload_bytes (length body)
      then too_large
      else handle_post s url r (gathered body) fs

  upload_step :
      (c : Chunk) (cs : List Chunk) (state : RequestState) (fs : Files)
      → upload (c ∷ cs) state fs ≡ upload cs (append_upload_data true (chunk_bytes c) state) fs
  unfolding upload handle_request with_state streq
  upload_step (b, bs) cs state fs = rw (not_zero_test (length bs)) refl

  upload_end :
      (state : RequestState) (fs : Files)
      → (upload [] state fs).0 ≡ answers (handle_post s url r state fs)
  unfolding upload handle_request with_state streq
  upload_end state fs = refl

  refused-upload :
      (cs : List Chunk) (body : Bytes) (fs : Files)
      → (upload cs (refused body) fs).0 ≡ answers too_large
  unfolding append_upload_data handle_post
  refused-upload [] body fs = upload_end (refused body) fs
  refused-upload ((b, bs) ∷ cs) body fs =
      rw (upload_step (b, bs) cs (refused body) fs)
        (elim (Bool-cases (ltb max_upload_bytes (length body + length (b ∷ bs)))) [
          | inl e ↦ rw (not_zero_test (length bs), e) (refused-upload cs body fs)
          | inr e ↦ rw (not_zero_test (length bs), e) (refused-upload cs (body ++ b ∷ bs) fs)
        ])

  gathered-upload :
      (cs : List Chunk) (body : Bytes) (fs : Files)
      → length body ≤ max_upload_bytes
      → (upload cs (gathered body) fs).0 ≡ answers (expected (body ++ whole_body cs) fs)
  unfolding append_upload_data
  gathered-upload [] body fs h =
      rw (append-nil body, le→not_ltb max_upload_bytes (length body) h)
        (upload_end (gathered body) fs)
  gathered-upload ((b, bs) ∷ cs) body fs h =
      rw (upload_step (b, bs) cs (gathered body) fs)
        (elim (Bool-cases (ltb max_upload_bytes (length body + length (b ∷ bs)))) [
          | inl e ↦
              rw
                (
                  not_zero_test (length bs),
                  e,
                  lt→ltb max_upload_bytes (length (body ++ ((b ∷ bs) ++ whole_body cs)))
                      (overflows body (b ∷ bs) (whole_body cs) e),
                )
                (refused-upload cs body fs)
          | inr e ↦
              rw (not_zero_test (length bs), e, ← append_assoc body (b ∷ bs) (whole_body cs))
                (gathered-upload cs (body ++ b ∷ bs) fs (
                  omega (
                    arith,
                    not_ltb max_upload_bytes (length body + length (b ∷ bs)) e,
                    length-append {0} body (b ∷ bs),
                  )))
        ])

  -- However libmicrohttpd cuts the body of a POST into chunks, and when every allocation succeeds,
  -- the request is answered as handle_post answers the whole body when that has 65536 bytes or less,
  -- and with 413 when it is longer.
  pub post_lem :
      (cs : List Chunk) (fs : Files) → (post cs fs).0 ≡ answers (expected (whole_body cs) fs)
  unfolding post handle_request
  post_lem cs fs = gathered-upload cs [] fs (omega arith)

-- parse_port reads back every port number as it is printed.
pub parse_port-print_ℕ : (n : ℕ) → 0 < n → n < 65536 → parse_port (print_ℕ n) ≡ some n
unfolding parse_port
parse_port-print_ℕ n positive h =
    rw (← append-nil (print_ℕ n)) (rw (number-print_ℕ n [] tt) (ground arith))

-- What parse_port returns is a port number other than 0.
pub parse_port-lt : (s : Bytes) (n : ℕ) → parse_port s ≡ some n → (0 < n) × (n < 65536)
unfolding parse_port
parse_port-lt s n h = result (number s) h
  where
    range : (r : Result ℕ) (rest : Bytes) → port_range r rest ≡ some n → (0 < n) × (n < 65536)
    range (err e) rest h = cc h
    range (ok v) [] h = ground arith
    range (ok v) (c ∷ rest) h = cc h

    result : (o : Option (Bool × ℕ × Bytes)) → port_result o ≡ some n → (0 < n) × (n < 65536)
    result none h = cc h
    result (some (negative, m, rest)) h = range (strtoul_value negative m) rest h
