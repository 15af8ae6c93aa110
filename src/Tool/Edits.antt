-- ===== src/Tool/Edits.antt =====
-- server/src/dumb-main.c: payloads that are signed, given a time or data with the tool alone.
use dumbos_dumbos.Base.{
  ℕ, zero, suc, ◌-◌, ◌≤◌, ◌≡◌, refl, ap, ◌∙◌, sym, subst, Bool, true, false, [], ◌∷◌, ◌++◌,
  append-nil, arith, Bytes, length, take, drop, replicate, Option, none, some, Result, ok, err,
  length-append, length-take, length-replicate, if◌then◌else◌, ltb, not_ltb, streq,
}
use dumbos_dumbos.Base.Errno.{e2big}
use dumbos_dumbos.Files.{Files, lookup}
use dumbos_dumbos.Ed25519.{Openssl}
use dumbos_dumbos.Payload.{Payload, to_bytes}
use dumbos_dumbos.Payload.Layout.{length-to_bytes}
use dumbos_dumbos.Payload.Sign.{dp_sign}
use dumbos_dumbos.Payload.SignLaws.{dp_sign_fills}
use dumbos_dumbos.Tool.{struct_bytes}
use dumbos_dumbos.Tool.Struct.{struct_bytes_data}
use dumbos_dumbos.Tool.Main.{
  sign_set, expire_set, data_set, overwritten, write_back, signed_back, cmd_sign, set_expire,
  put_data, cmd_set_data,
}
use dumbos_dumbos.Tool.SizeLaws.{
  IsUnsized, Unsized, Keeps, written, on_payload-Keeps, command_changed,
}
use dumbos_dumbos.Tool.SetLaws.{write_with-Keeps}

pub drop_all : (n : ℕ) (b : Bytes) → length b ≤ n → drop n b ≡ []
drop_all zero [] h = refl
drop_all zero (x ∷ b) h = absurd (omega (arith, h))
drop_all (suc n) [] h = refl
drop_all (suc n) (x ∷ b) h = drop_all n b (omega (arith, h))

module _ (path : Bytes) (fs : Files) (unsized : Unsized path fs) where
  -- What is written back has the size of what was read.
  write_back-Keeps :
      (p q : Payload)
      → IsUnsized p
      → IsUnsized q
      → length q.payload ≡ length p.payload
      → lookup path fs ≡ some (to_bytes p)
      → Keeps path fs unsized (write_back path (length (to_bytes p)) fs q)
  write_back-Keeps p q h k same e =
      written path _ (record q { payload = take (length p.payload) q.payload }) fs
        (command_changed q q.command (take (length p.payload) q.payload) k k.sizes.command_length)
        (ap (λ (o : Option Bytes). overwritten new o) e
          ∙ ap (λ (b : Bytes). new ++ b)
              (drop_all (length new) (to_bytes p) (omega (arith, long, length-to_bytes p h.sizes)))
          ∙ append-nil new
          ∙ made)
    where
      new : Bytes
      new = struct_bytes q (length (to_bytes p))

      made : new ≡ to_bytes (record q { payload = take (length p.payload) q.payload })
      made =
          ap (λ (n : ℕ). struct_bytes q n) (length-to_bytes p h.sizes)
          ∙ struct_bytes_data q (length p.payload) k.sizes

      long : length new ≡ length (to_bytes p)
      long = omega (
        arith,
        length-take (length (to_bytes p)) (to_bytes q),
        length-to_bytes p h.sizes,
        length-to_bytes q k.sizes,
        same,
      )

  pub cmd_sign-Keeps : (o : Openssl) (key : Bytes) → Keeps path fs unsized (cmd_sign o path key fs)
  unfolding cmd_sign
  cmd_sign-Keeps o key =
      on_payload-Keeps path fs unsized (sign_set o path key fs)
        (λ p h e. signed p h e (dp_sign o p (length (to_bytes p)) key) refl)
    where
      signed :
          (p : Payload)
          → IsUnsized p
          → lookup path fs ≡ some (to_bytes p)
          → (r : Result (Unit {0}) × Payload) → dp_sign o p (length (to_bytes p)) key ≡ r
          → Keeps path fs unsized (signed_back path (length (to_bytes p)) fs r)
      signed p h e (err x, q) d = unsized
      signed p h e (ok _, q) d =
          let (s, eq, n) = dp_sign_fills o p q (length (to_bytes p)) key d in
          subst
            (λ (x : Payload). Keeps path fs unsized (write_back path (length (to_bytes p)) fs x))
            (sym eq)
            (write_back-Keeps p (record p { signature = s }) h
              (record {
                sizes = record {
                  signature_length = n;
                  expire_length = h.sizes.expire_length;
                  command_length = h.sizes.command_length;
                  padding_length = h.sizes.padding_length;
                  data_size_length = h.sizes.data_size_length;
                };
                no_size = h.no_size;
              })
              refl e)

  pub set_expire-Keeps : (expire : Bytes) → Keeps path fs unsized (set_expire path expire fs)
  unfolding set_expire
  set_expire-Keeps expire =
      on_payload-Keeps path fs unsized (expire_set path expire fs)
        (λ p h e. decided p h e (ltb 15 (length expire)) refl)
    where
      decided :
          (p : Payload)
          → IsUnsized p
          → lookup path fs ≡ some (to_bytes p)
          → (long : Bool) → ltb 15 (length expire) ≡ long
          → Keeps path fs unsized (
              if long
              then (e2big, fs)
              else write_back path
                  (length (to_bytes p))
                  fs
                  (record p { expire = expire ++ replicate (16 - length expire) 0 }))
      decided p h e true t = unsized
      decided p h e false t =
          write_back-Keeps p (record p { expire = expire ++ replicate (16 - length expire) 0 }) h
            (record {
              sizes = record {
                signature_length = h.sizes.signature_length;
                expire_length = omega (
                  arith,
                  length-append {0} expire (replicate (16 - length expire) 0),
                  length-replicate {A = ℕ} (16 - length expire) 0,
                  not_ltb 15 (length expire) t,
                );
                command_length = h.sizes.command_length;
                padding_length = h.sizes.padding_length;
                data_size_length = h.sizes.data_size_length;
              };
              no_size = h.no_size;
            })
            refl e

  put_data-Keeps :
      (p : Payload) (o : Option Bytes) → IsUnsized p → Keeps path fs unsized (put_data path p fs o)
  put_data-Keeps p none h = unsized
  put_data-Keeps p (some content) h = write_with-Keeps path fs unsized p content h

  pub cmd_set_data-Keeps :
      (data_path : Bytes) → Keeps path fs unsized (cmd_set_data path data_path fs)
  unfolding cmd_set_data
  cmd_set_data-Keeps data_path =
      on_payload-Keeps path fs unsized (data_set path data_path fs) (λ p h e.
        put_data-Keeps p (if streq path data_path then some [] else lookup data_path fs) h)
