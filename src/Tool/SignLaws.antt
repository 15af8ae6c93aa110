-- ===== src/Tool/SignLaws.antt =====
-- server/src/dumb-main.c: signing a payload file and verifying it.
use dumbos_dumbos.Base.{
  ℕ, ◌≡◌, refl, ap, ◌∙◌, sym, subst, true, ◌++◌, append-nil, arith, Bytes, length, drop, Option,
  some, Result, ok, err, take_all, le→not_ltb, err-ne-ok,
}
use dumbos_dumbos.Files.{Files, lookup, insert, lookup-insert_self}
use dumbos_dumbos.Ed25519.{Openssl, IsEd25519}
use dumbos_dumbos.Ed25519.Laws.{IsKeyPair}
use dumbos_dumbos.Payload.{Payload, IsPayload, base_size, to_bytes}
use dumbos_dumbos.Payload.Layout.{length-to_bytes, of_bytes-to_bytes}
use dumbos_dumbos.Payload.Fields.{dp_validate_size}
use dumbos_dumbos.Payload.Sign.{dp_sign, dp_verify}
use dumbos_dumbos.Payload.SignLaws.{dp_verify-dp_sign, dp_sign_fills}
use dumbos_dumbos.Tool.{dp_malloc_load, loaded, on_payload, struct_bytes}
use dumbos_dumbos.Tool.Main.{
  sign_set, verify_loaded, verdict_code, overwritten, signed_back, cmd_sign, verify_payload,
}
use dumbos_dumbos.Tool.Edits.{drop_all}

load_payload :
    (path : Bytes) (p : Payload) (fs : Files)
    → IsPayload p
    → lookup path fs ≡ some (to_bytes p)
    → dp_malloc_load path fs ≡ ok (to_bytes p)
unfolding dp_malloc_load
load_payload path p fs h found =
    ap (λ (f : Option Bytes). loaded f) found
    ∙ rw (le→not_ltb (length (to_bytes p)) base_size (omega (arith, length-to_bytes p h))) refl

-- What is written back over a file of the same size replaces it.
replaced :
    (p q : Payload)
    → IsPayload p
    → IsPayload q
    → length q.payload ≡ length p.payload
    → overwritten (struct_bytes q (length (to_bytes p))) (some (to_bytes p)) ≡ to_bytes q
replaced p q h k same =
    ap (λ (b : Bytes). b ++ drop (length b) (to_bytes p))
      (take_all (length (to_bytes p)) (to_bytes q) (omega (arith, equal)))
    ∙ ap (λ (b : Bytes). to_bytes q ++ b)
        (drop_all (length (to_bytes q)) (to_bytes p) (omega (arith, equal)))
    ∙ append-nil (to_bytes q)
  where
    equal : length (to_bytes q) ≡ length (to_bytes p)
    equal = omega (arith, length-to_bytes p h, length-to_bytes q k, same)

module _ (o : Openssl) (path private_hex public_hex : Bytes) (p : Payload) (fs : Files) where
  -- A payload file with the right sizes that the tool signs without an error it verifies with the
  -- other key of the pair.
  pub verify_payload-cmd_sign :
      IsEd25519 o
      → IsKeyPair o private_hex public_hex
      → IsPayload p
      → dp_validate_size p (length (to_bytes p)) ≡ true
      → lookup path fs ≡ some (to_bytes p)
      → (dp_sign o p (length (to_bytes p)) private_hex).0 ≡ ok tt
      → verify_payload o path public_hex (cmd_sign o path private_hex fs).1 ≡ 0
  unfolding verify_payload cmd_sign
  verify_payload-cmd_sign law pair h valid found signs =
      ap
        (λ r. verify_payload o path public_hex (on_payload (sign_set o path private_hex fs) fs r).1)
        (load_payload path p fs h found)
      ∙ ap
          (λ (x : Payload).
            verify_payload o path public_hex
              (sign_set o path private_hex fs x (length (to_bytes p))).1)
          (of_bytes-to_bytes p h)
      ∙ signed (dp_sign o p (length (to_bytes p)) private_hex) refl signs
    where
      verified :
          (q : Payload) (gs : Files)
          → IsPayload q
          → lookup path gs ≡ some (to_bytes q)
          → (dp_verify o q (length (to_bytes q)) public_hex).0 ≡ ok tt
          → verify_payload o path public_hex gs ≡ 0
      verified q gs k there good =
          ap (λ r. verify_loaded o public_hex r) (load_payload path q gs k there)
          ∙ ap (λ (x : Payload). verdict_code (dp_verify o x (length (to_bytes q)) public_hex).0)
              (of_bytes-to_bytes q k)
          ∙ ap (λ r. verdict_code r) good

      signed :
          (r : Result (Unit {0}) × Payload)
          → dp_sign o p (length (to_bytes p)) private_hex ≡ r
          → r.0 ≡ ok tt
          → verify_payload o path public_hex (signed_back path (length (to_bytes p)) fs r).1 ≡ 0
      signed (err x, q) d good = absurd (err-ne-ok good)
      signed (ok _, q) d good =
          let (s, eq, n) = dp_sign_fills o p q (length (to_bytes p)) private_hex d in
          let k : IsPayload q =
            subst (λ (x : Payload). IsPayload x) (sym eq)
              (record {
                signature_length = n;
                expire_length = h.expire_length;
                command_length = h.command_length;
                padding_length = h.padding_length;
                data_size_length = h.data_size_length;
              }) in
          let same : length q.payload ≡ length p.payload =
            ap (λ (x : Payload). length x.payload) eq in
          let long : length (to_bytes q) ≡ length (to_bytes p) =
            omega (arith, length-to_bytes p h, length-to_bytes q k, same) in
          verified q _ k
            (ap (λ (b : Bytes). lookup path (insert path b fs))
                (ap (λ (f : Option Bytes). overwritten (struct_bytes q (length (to_bytes p))) f)
                    found
                  ∙ replaced p q h k same)
              ∙ lookup-insert_self path (to_bytes q) fs)
            (ap (λ (n : ℕ). (dp_verify o q n public_hex).0) long
              ∙ ap
                  (λ (r : Result (Unit {0}) × Payload).
                    (dp_verify o r.1 (length (to_bytes p)) public_hex).0)
                  (sym d)
              ∙ ap (λ (r : Result (Unit {0}) × Payload). r.0)
                  (dp_verify-dp_sign o p (length (to_bytes p)) private_hex public_hex law pair valid
                    signs))
