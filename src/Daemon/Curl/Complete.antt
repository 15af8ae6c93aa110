-- ===== src/Daemon/Curl/Complete.antt =====
-- daemon/curl.c: a download on which nothing fails.
use dumbos_dumbos.Base.{
  ℕ, ◌+◌, ◌-◌, ◌*◌, ◌/◌, ◌%◌, ◌≤◌, ◌≡◌, refl, sym, ap, ◌∙◌, Bool, true, false, List, [], ◌∷◌, ◌++◌,
  append_assoc, append-nil, Bytes, ok, err, err-ne-ok, ◌==◌, ◌&&◌, if◌then◌else◌, length,
  length-append, take_all, subst, not_zero_test, arith, ==_iff, le→not_ltb, All,
}
use native.Mathlib.Nat.{le-div_iff_mul-le}
use dumbos_dumbos.Base.Errno.{einval}
use dumbos_dumbos.Daemon.Curl.{
  Curlcode, is_curle_ok, size_max, make_effective_url, DownloadBuffer, no_download, write_callback,
  perform, set_options, Curl, performed, fetch, with_url, download_url,
}
use dumbos_dumbos.Daemon.Curl.Whole.{joined, branches}

branches_takes :
    {too_many nothing full : Bool} {incoming : ℕ} (piece : Bytes) (buf : DownloadBuffer)
    → too_many ≡ false
    → nothing ≡ false
    → full ≡ false
    → incoming ≡ length piece
    → branches too_many nothing full true incoming piece buf
      ≡ (length piece, record buf { data' = buf.data' ++ piece })
branches_takes piece buf a b c d = rw (a, b, c, d, take_all (length piece) piece (omega arith)) refl

-- The callback takes what fits into a size_t.
write_callback_takes :
    (piece : Bytes) (buf : DownloadBuffer)
    → length buf.data' + length piece ≤ size_max
    → write_callback true piece 1 (length piece) buf
      ≡ (length piece, record buf { data' = buf.data' ++ piece })
unfolding write_callback
write_callback_takes [] buf fits =
    ap (λ l. (0, record buf { data' = l })) (sym (append-nil buf.data'))
write_callback_takes (b ∷ bs) buf fits =
    let n = length (b ∷ bs) in
    let small : (1 * n) % 18446744073709551616 ≡ n = omega arith in
    branches_takes (b ∷ bs) buf
      (rw (not_zero_test (length bs))
        (le→not_ltb (size_max / n) 1 ((le-div_iff_mul-le (omega arith)).1 (omega arith))))
      (rw small (not_zero_test (length bs)))
      (le→not_ltb (size_max - (1 * n) % 18446744073709551616) (length buf.data') (omega arith))
      small

abbrev pub IsAllocated : Bool × Bytes → Type 0
IsAllocated (allocated, _) = allocated ≡ true

perform_takes :
    (pieces : List (Bool × Bytes)) (code : Curlcode) (buf : DownloadBuffer)
    → All IsAllocated pieces
    → length buf.data' + length (joined pieces) ≤ size_max
    → perform pieces code buf ≡ (code, record buf { data' = buf.data' ++ joined pieces })
unfolding perform
perform_takes [] code buf al fits =
    ap (λ l. (code, record buf { data' = l })) (sym (append-nil buf.data'))
perform_takes ((allocated, piece) ∷ pieces) code buf (a, al) fits =
    let n = length piece in
    let buf' : DownloadBuffer = record buf { data' = buf.data' ++ piece } in
    let step =
      write_callback_takes piece buf (omega (arith, length-append piece (joined pieces))) in
    let rest =
      perform_takes pieces code buf' al
        (omega (arith, length-append piece (joined pieces), length-append buf.data' piece)) in
    rw (a, step, (==_iff n n).1 refl)
      (rest
        ∙ ap (λ (l : Bytes). (code, record buf { data' = l }))
            (append_assoc buf.data' piece (joined pieces)))

-- A URL that is effective is not empty.
make_effective_url-length :
    (allocated : Bool) (url effective : Bytes)
    → make_effective_url allocated url ≡ ok effective
    → (length url == 0) ≡ false
unfolding make_effective_url
make_effective_url-length allocated [] effective h = absurd (err-ne-ok h)
make_effective_url-length allocated (b ∷ bs) effective h = not_zero_test (length bs)

and_false : (b : Bool) → (b && false) ≡ false
and_false true = refl
and_false false = refl

fetch_complete :
    (c : Curl) (effective : Bytes)
    → c.global_init ≡ true
    → c.easy_init ≡ true
    → is_curle_ok (set_options c.options) ≡ true
    → c.one_allocated ≡ true
    → All IsAllocated (c.transfer effective).pieces
    → length (joined (c.transfer effective).pieces) ≤ size_max
    → is_curle_ok (c.transfer effective).code ≡ true
    → fetch c effective ≡ ok (joined (c.transfer effective).pieces)
unfolding fetch performed
fetch_complete c effective global easy options one al fits code =
    let t = c.transfer effective in
    let all = perform_takes t.pieces t.code no_download al (omega arith) in
    rw (global, easy, options, all, code, one, and_false (length (joined t.pieces) == 0)) refl

-- A download on which nothing fails is given whole: when make_effective_url makes a URL of the
-- argument, libcurl is set up, no allocation fails, the pieces of the transfer have together at most
-- SIZE_MAX bytes and the transfer ends with CURLE_OK, download_url returns the pieces, one behind the
-- other, also where there are none.
pub download_url_complete :
    (c : Curl) (url effective : Bytes)
    → make_effective_url c.url_allocated url ≡ ok effective
    → c.global_init ≡ true
    → c.easy_init ≡ true
    → is_curle_ok (set_options c.options) ≡ true
    → c.one_allocated ≡ true
    → All IsAllocated (c.transfer effective).pieces
    → length (joined (c.transfer effective).pieces) ≤ size_max
    → is_curle_ok (c.transfer effective).code ≡ true
    → download_url c url ≡ ok (joined (c.transfer effective).pieces)
unfolding download_url
download_url_complete c url effective made global easy options one al fits code =
    let body = joined (c.transfer effective).pieces in
    let past = with_url c (make_effective_url c.url_allocated url) in
    subst (λ (b : Bool). (if b then err einval else past) ≡ ok body)
      (sym (make_effective_url-length c.url_allocated url effective made))
      (ap (with_url c) made ∙ fetch_complete c effective global easy options one al fits code)
