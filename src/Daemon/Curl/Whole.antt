-- ===== src/Daemon/Curl/Whole.antt =====
-- daemon/curl.c: what a download that succeeds holds.
use dumbos_dumbos.Base.{
  ℕ, ◌-◌, ◌*◌, ◌/◌, ◌%◌, ◌≡◌, refl, sym, ap, ◌∙◌, Bool, true, false, List, [], ◌∷◌, ◌++◌,
  append_assoc, append-nil, Bytes, codes, Result, ok, err, err-ne-ok, ok-injective, ltb, ◌==◌, ◌&&◌,
  ◌||◌, ◌⊎◌, not, if◌then◌else◌, length, take, take_all, Bool-cases, Result-cases, subst, inl, inr,
  arith, ==_iff,
}
use dumbos_dumbos.Base.Errno.{einval, eoverflow, enomem, eprotonosupport}
use dumbos_dumbos.Daemon.Curl.{
  Curlcode, write_error, is_curle_ok, starts_with_http_scheme, starts_with, strstr, size_max,
  make_effective_url, DownloadBuffer, no_download, write_callback, perform, set_options, Curl,
  performed, fetch, with_url, download_url,
}

-- A result that is not the error of a guard.
past_guard :
    (b : Bool) (e : ℕ) (r : Result Bytes) (a : Bytes) → (if b then err e else r) ≡ ok a → r ≡ ok a
past_guard true e r a h = absurd (err-ne-ok h)
past_guard false e r a h = h

in_guard :
    (b : Bool) (e : ℕ) (r : Result Bytes) (a : Bytes)
    → (if b then r else err e) ≡ ok a
    → (b ≡ true) × (r ≡ ok a)
in_guard true e r a h = (refl, h)
in_guard false e r a h = absurd (err-ne-ok h)

-- All pieces of a transfer, one behind the other.
abbrev pub joined : List (Bool × Bytes) → Bytes
joined [] = []
joined ((_, piece) ∷ pieces) = piece ++ joined pieces

-- The branches of the callback for a piece that is not empty, by the outcome of their tests.
abbrev pub branches : Bool → Bool → Bool → Bool → ℕ → Bytes → DownloadBuffer → ℕ × DownloadBuffer
branches too_many nothing full allocated incoming piece buf =
    if too_many
    then (0, record buf { err' = eoverflow })
    else if nothing
    then (0, buf)
    else if full
    then (0, record buf { err' = eoverflow })
    else if allocated
    then (incoming, record buf { data' = buf.data' ++ take incoming piece })
    else (0, record buf { err' = enomem })

branches_kept :
    (too_many nothing full allocated : Bool) (incoming b : ℕ) (bs : Bytes) (buf : DownloadBuffer)
    → (branches too_many nothing full allocated incoming (b ∷ bs) buf).0 ≡ length (b ∷ bs)
    → (branches too_many nothing full allocated incoming (b ∷ bs) buf).1.data' ≡ buf.data' ++ b ∷ bs
branches_kept true _ _ _ incoming b bs buf h = absurd (omega arith)
branches_kept false true _ _ incoming b bs buf h = absurd (omega arith)
branches_kept false false true _ incoming b bs buf h = absurd (omega arith)
branches_kept false false false false incoming b bs buf h = absurd (omega arith)
branches_kept false false false true incoming b bs buf h =
    ap (λ (l : Bytes). buf.data' ++ l) (take_all incoming (b ∷ bs) (omega arith))

-- The callback takes a whole piece only by keeping it.
write_callback_kept :
    (allocated : Bool) (piece : Bytes) (buf : DownloadBuffer)
    → (write_callback allocated piece 1 (length piece) buf).0 ≡ length piece
    → (write_callback allocated piece 1 (length piece) buf).1.data' ≡ buf.data' ++ piece
unfolding write_callback
write_callback_kept allocated [] buf h = sym (append-nil buf.data')
write_callback_kept allocated (b ∷ bs) buf h =
    let n = length (b ∷ bs) in
    let incoming = (1 * n) % 18446744073709551616 in
    branches_kept (not (n == 0) && ltb (size_max / n) 1) (incoming == 0)
      (ltb (size_max - incoming) (length buf.data')) allocated incoming b bs buf h

perform_kept :
    (pieces : List (Bool × Bytes)) (code : Curlcode) (buf : DownloadBuffer)
    → is_curle_ok (perform pieces code buf).0 ≡ true
    → (is_curle_ok code ≡ true) × ((perform pieces code buf).1.data' ≡ buf.data' ++ joined pieces)
unfolding perform is_curle_ok
perform_kept [] code buf h = (h, sym (append-nil buf.data'))
perform_kept ((allocated, piece) ∷ pieces) code buf h =
    let r = write_callback allocated piece 1 (length piece) buf in
    elim (Bool-cases (r.0 == length piece)) [
      | inl e ↦
          let (c, kept) = perform_kept pieces code r.1 (
            subst
              (λ (b : Bool).
                is_curle_ok (if b then perform pieces code r.1 else (write_error, r.1)).0 ≡ true)
              e h) in
          (
            c,
            rw e (
                kept
                ∙ ap (λ (l : Bytes). l ++ joined pieces)
                    (write_callback_kept allocated piece buf ((==_iff r.0 (length piece)).0 e))
                ∙ append_assoc buf.data' piece (joined pieces)),
          )
      | inr e ↦ absurd (
          cc (
            subst
              (λ (b : Bool).
                is_curle_ok (if b then perform pieces code r.1 else (write_error, r.1)).0 ≡ true)
              e h))
    ]

decided :
    {b c : Bool} (r s : Result Bytes) {a : Bytes}
    → b ≡ c
    → (if b then r else s) ≡ ok a
    → (if c then r else s) ≡ ok a
decided r s {a} e h = subst (λ (x : Bool). (if x then r else s) ≡ ok a) e h

prefixed : (url : Bytes) → starts_with_http_scheme (codes "http://" ++ url) ≡ true
unfolding starts_with_http_scheme starts_with
prefixed url = refl

-- The URL that is fetched has one of the schemes that are allowed.
make_effective_url-http :
    (allocated : Bool) (url effective : Bytes)
    → make_effective_url allocated url ≡ ok effective
    → ((effective ≡ url) ⊎ (effective ≡ codes "http://" ++ url))
      × (starts_with_http_scheme effective ≡ true)
unfolding make_effective_url
make_effective_url-http allocated url effective h =
    let inner = past_guard (length url == 0) einval _ effective h in
    elim (Bool-cases (starts_with_http_scheme url)) [
      | inl e ↦
          let same =
            ok-injective (in_guard allocated enomem (ok url) effective (decided _ _ e inner)).1 in
          (inl (sym same), subst (λ u. starts_with_http_scheme u ≡ true) same e)
      | inr e ↦
          let same =
            ok-injective
              (in_guard allocated enomem (ok (codes "http://" ++ url)) effective (
                past_guard (ltb (size_max - 7 - 1) (length url)) eoverflow _ effective (
                  past_guard (strstr url (codes "://")) eprotonosupport _ effective
                    (decided _ _ e inner)))).1 in
          (inr (sym same), subst (λ u. starts_with_http_scheme u ≡ true) same (prefixed url))
    ]

starts_with_split :
    (prefix s : Bytes) → starts_with prefix s ≡ true → (rest : Bytes) × (s ≡ prefix ++ rest)
unfolding starts_with
starts_with_split [] s h = (s, refl)
starts_with_split (c ∷ prefix) [] h = cc h
starts_with_split (c ∷ prefix) (d ∷ s) h = elim (Bool-cases (c == d)) [
  | inl e ↦
      let (rest, same) =
        starts_with_split prefix s (subst (λ (b : Bool). (b && starts_with prefix s) ≡ true) e h) in
      (rest, ap (λ (x : ℕ). x ∷ s) (sym ((==_iff c d).0 e)) ∙ ap (λ (l : Bytes). c ∷ l) same)
  | inr e ↦ cc (subst (λ (b : Bool). (b && starts_with prefix s) ≡ true) e h)
]

-- The two ways a web address begins.
abbrev pub IsWeb : Bytes → Type 0
IsWeb url = (rest : Bytes) × ((url ≡ codes "http://" ++ rest) ⊎ (url ≡ codes "https://" ++ rest))

starts_with_http_scheme-IsWeb : (s : Bytes) → starts_with_http_scheme s ≡ true → IsWeb s
unfolding starts_with_http_scheme
starts_with_http_scheme-IsWeb s h = elim (Bool-cases (starts_with (codes "http://") s)) [
  | inl e ↦ let (rest, same) = starts_with_split (codes "http://") s e in (rest, inl same)
  | inr e ↦
      let (rest, same) =
        starts_with_split (codes "https://") s
          (subst (λ (b : Bool). (b || starts_with (codes "https://") s) ≡ true) e h) in
      (rest, inr same)
]

fetch_kept :
    (c : Curl) (effective body : Bytes)
    → fetch c effective ≡ ok body
    → (is_curle_ok (c.transfer effective).code ≡ true)
      × (body ≡ joined (c.transfer effective).pieces)
unfolding fetch performed
fetch_kept c effective body h =
    let t = c.transfer effective in
    let (_, h') =
      in_guard (is_curle_ok (set_options c.options)) _
        (performed c (perform t.pieces t.code no_download)) body
        (past_guard (not c.easy_init) enomem _ body
          (past_guard (not c.global_init) enomem _ body h)) in
    let done = perform t.pieces t.code no_download in
    let (fine, h'') = in_guard (is_curle_ok done.0) _ _ body h' in
    let (code, kept) = perform_kept t.pieces t.code no_download fine in
    (
      code,
      sym (
            ok-injective (
              past_guard ((length done.1.data' == 0) && not c.one_allocated) enomem
                (ok done.1.data') body h''))
          ∙ kept,
    )

-- A download that succeeds is whole: when download_url returns bytes, they are all the pieces that
-- libcurl delivered, one behind the other, for a URL that begins with http:// or https:// and is the
-- argument or the argument behind http://, and the transfer ended with CURLE_OK. A piece for which there was no memory, or a size that overflows, is never skipped.
pub download_url_whole :
    (c : Curl) (url body : Bytes)
    → download_url c url ≡ ok body
    → (effective : Bytes) × ((effective ≡ url) ⊎ (effective ≡ codes "http://" ++ url))
      × IsWeb effective
      × (is_curle_ok (c.transfer effective).code ≡ true)
      × (body ≡ joined (c.transfer effective).pieces)
unfolding download_url
download_url_whole c url body h =
    let h' =
      past_guard (length url == 0) einval (with_url c (make_effective_url c.url_allocated url)) body
        h in
    elim (Result-cases (make_effective_url c.url_allocated url)) [
      | inl (effective, e) ↦
          let (fine, whole) =
            fetch_kept c effective body (subst (λ r. with_url c r ≡ ok body) e h') in
          let (from, scheme) = make_effective_url-http c.url_allocated url effective e in
          (effective, from, starts_with_http_scheme-IsWeb effective scheme, fine, whole)
      | inr (n, e) ↦ absurd (err-ne-ok (subst (λ r. with_url c r ≡ ok body) e h'))
    ]
