-- ===== src/Server/ReloadLaws.antt =====
-- server/src/dp_load.c: what later loads and the daemon make of a payload that was served.
use dumbos_dumbos.Base.{
  ℕ, ◌+◌, ◌<◌, ◌≡◌, refl, ap, ◌∙◌, sym, true, none, some, arith, Bytes, Result, ok, err, length,
  subst, le→not_ltb,
}
use dumbos_dumbos.Base.Int.{pos, ◌≤ℤ◌}
use dumbos_dumbos.Ed25519.{Openssl, IsEd25519}
use dumbos_dumbos.Ed25519.Laws.{IsKeyPair}
use dumbos_dumbos.Payload.{Payload, IsPayload, base_size, to_bytes, of_bytes}
use dumbos_dumbos.Payload.Layout.{to_bytes-of_bytes, of_bytes-to_bytes, length-to_bytes}
use dumbos_dumbos.Payload.Fields.{dp_validate_size}
use dumbos_dumbos.Payload.Expire.{dp_get_expire}
use dumbos_dumbos.Payload.ExpireLaws.{dp_get_expire_or_set-SameBut}
use dumbos_dumbos.Payload.Sign.{dp_sign, dp_verify}
use dumbos_dumbos.Payload.SignLaws.{dp_verify-dp_sign, dp_sign_fills}
use dumbos_dumbos.Files.{Files}
use dumbos_dumbos.Server.{Times}
use dumbos_dumbos.Server.Load.{signed_payload, load_file, dp_malloc_check_load}
use dumbos_dumbos.Server.LoadLaws.{Loaded, load-Loaded}
use dumbos_dumbos.Server.Reopen.{reopen, is_expired-set, is_expired_known, fixed-IsPayload}

module _ {o : Openssl} {code username key : Bytes} {t : Times} {fs fs' : Files} {body : Bytes}
    (l : Loaded o code username key t fs fs' body) where
  Loaded-IsPayload : IsPayload l.fixed
  Loaded-IsPayload =
      subst IsPayload
        (sym (is_expired-set t.at_set t.at_compare (of_bytes l.content) l.fixed l.fresh))
        (fixed-IsPayload l.content t.at_set l.whole)

  -- A later load at a time past the fixed expiry finds the code expired and changes nothing.
  Loaded_expires :
      (n : ℕ) (later : Times)
      → dp_get_expire l.fixed ≡ pos n
      → 0 < n
      → pos n ≤ℤ later.at_compare
      → dp_malloc_check_load o code username key later fs' ≡ (none, fs')
  unfolding dp_malloc_check_load load_file
  Loaded_expires n later e h k =
      rw
        (
          l.allowed,
          l.short,
          l.written,
          reopen username code l.path l.content (to_bytes l.fixed) fs l.opened,
          le→not_ltb (length (to_bytes l.fixed)) base_size
              (omega (arith, length-to_bytes l.fixed Loaded-IsPayload)),
          of_bytes-to_bytes l.fixed Loaded-IsPayload,
          is_expired_known l.fixed n later.at_set later.at_compare e h k,
        )
        refl

  -- The payload that was sent, as the daemon casts it.
  Body : Type 0
  Body =
      (p' : Payload) × (dp_sign o l.fixed (length l.content) key ≡ (ok tt, p'))
      × (of_bytes body ≡ p')
      × (s : Bytes) × (p' ≡ record l.fixed { signature = s })
      × (IsPayload p')
      × (body ≡ to_bytes p')

  signed_Body :
      (r : Result (Unit {0}) × Payload)
      → dp_sign o l.fixed (length l.content) key ≡ r
      → signed_payload r ≡ some body
      → Body
  unfolding Body
  signed_Body (err e, p) h k = cc k
  signed_Body (ok _, p) h k =
      let (s, same, len) = dp_sign_fills o l.fixed p (length l.content) key h in
      let shown : body ≡ to_bytes p = cc k in
      let wf : IsPayload p = subst IsPayload (sym same) (record {
        signature_length = len;
        expire_length = Loaded-IsPayload.expire_length;
        command_length = Loaded-IsPayload.command_length;
        padding_length = Loaded-IsPayload.padding_length;
        data_size_length = Loaded-IsPayload.data_size_length;
      }) in
      (p, h, rw (shown) (of_bytes-to_bytes p wf), s, same, wf, shown)

  Loaded_body : Body
  Loaded_body = signed_Body (dp_sign o l.fixed (length l.content) key) refl l.signed

  body_expire : dp_get_expire (of_bytes body) ≡ dp_get_expire l.fixed
  unfolding Body dp_get_expire
  body_expire = let (p', _, cast, s, same, _, _) = Loaded_body in ap dp_get_expire (cast ∙ same)

  Loaded_payload_length : base_size + length l.fixed.payload ≡ length l.content
  Loaded_payload_length =
      let (e, same, _) = dp_get_expire_or_set-SameBut t.at_set (of_bytes l.content) in
      let kept : l.fixed.payload ≡ (of_bytes l.content).payload =
        ap (λ (q : Payload). q.payload)
          (is_expired-set t.at_set t.at_compare (of_bytes l.content) l.fixed l.fresh ∙ same) in
      let whole = to_bytes-of_bytes l.content in
      omega (
        arith,
        length-to_bytes (of_bytes l.content) (whole.1 l.whole),
        ap (λ (b : Bytes). length b) whole.0,
        ap (λ (b : Bytes). length b) kept,
      )

  body_length : length body ≡ length l.content
  unfolding Body
  body_length =
      let (p', _, _, s, same, wf, shown) = Loaded_body in
      omega (
        arith,
        ap (λ (b : Bytes). length b) shown,
        length-to_bytes p' wf,
        ap (λ (q : Payload). length q.payload) same,
        Loaded_payload_length,
      )

  fixed_valid :
      dp_validate_size (of_bytes body) (length body) ≡ true
      → dp_validate_size l.fixed (length l.content) ≡ true
  unfolding Body dp_validate_size
  fixed_valid valid =
      let (p', _, cast, s, same, _, _) = Loaded_body in
      ap (λ (n : ℕ). dp_validate_size (record l.fixed { signature = s }) n) (sym body_length)
      ∙ ap (λ (q : Payload). dp_validate_size q (length body)) (sym (cast ∙ same))
      ∙ valid

  verify_body :
      (public_hex : Bytes)
      → IsEd25519 o
      → IsKeyPair o key public_hex
      → dp_validate_size (of_bytes body) (length body) ≡ true
      → (dp_verify o (of_bytes body) (length body) public_hex).0 ≡ ok tt
  unfolding Body
  verify_body public_hex law pair valid =
      let (p', signs, cast, _, _, _, _) = Loaded_body in
      let accepted =
        dp_verify-dp_sign o l.fixed (length l.content) key public_hex law pair (fixed_valid valid)
          (ap (λ (r : Result (Unit {0}) × Payload). r.0) signs) in
      ap (λ (n : ℕ). (dp_verify o (of_bytes body) n public_hex).0) body_length
      ∙ ap (λ (q : Payload). (dp_verify o q (length l.content) public_hex).0)
          (cast ∙ sym (ap (λ (r : Result (Unit {0}) × Payload). r.1) signs))
      ∙ ap (λ (r : Result (Unit {0}) × Payload). r.0) accepted

-- Once a code was served with the expiry `n`, other than 0, a load of the same code for the same
-- user at a time of `n` or later finds it expired and changes no file: the expiry that the first use
-- fixed is the one on disk.
pub dp_malloc_check_load_expires :
    (o : Openssl) (code username key : Bytes) (t later : Times) (fs fs' : Files) (body : Bytes)
    (n : ℕ)
    → dp_malloc_check_load o code username key t fs ≡ (some body, fs')
    → dp_get_expire (of_bytes body) ≡ pos n
    → 0 < n
    → pos n ≤ℤ later.at_compare
    → dp_malloc_check_load o code username key later fs' ≡ (none, fs')
dp_malloc_check_load_expires o code username key t later fs fs' body n h e positive k =
    let l = load-Loaded o code username key t fs fs' body h in
    Loaded_expires l n later (sym (body_expire l) ∙ e) positive k

-- What the server sends the daemon accepts: the bytes of a served payload, when they have the size
-- that its data_size field says, pass dp_verify with the public key of the pair.
pub dp_malloc_check_load-dp_verify :
    (o : Openssl) (code username private_hex public_hex : Bytes) (t : Times) (fs fs' : Files)
    (body : Bytes)
    → IsEd25519 o
    → IsKeyPair o private_hex public_hex
    → dp_malloc_check_load o code username private_hex t fs ≡ (some body, fs')
    → dp_validate_size (of_bytes body) (length body) ≡ true
    → (dp_verify o (of_bytes body) (length body) public_hex).0 ≡ ok tt
dp_malloc_check_load-dp_verify o code username private_hex public_hex t fs fs' body law pair h
      valid =
    verify_body (load-Loaded o code username private_hex t fs fs' body h) public_hex law pair valid
