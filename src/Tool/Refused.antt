-- ===== src/Tool/Refused.antt =====
-- server/src/dumb-main.c and dumb-tool-cmd-set.c: what dp_verify makes of the payloads of the tool.
use dumbos_dumbos.Base.{
  ℕ, ◌+◌, ◌<◌, ◌≡◌, refl, ap, sym, subst, false, List, [], ◌∷◌, arith, Bytes, length, Option, none,
  some, err, ◌==◌, ltb, if◌then◌else◌, Bool-cases, inl, inr,
}
use dumbos_dumbos.Base.Errno.{einval}
use dumbos_dumbos.Files.{Files, lookup}
use dumbos_dumbos.Ed25519.{Openssl}
use dumbos_dumbos.Payload.{Payload, base_size, to_bytes, of_bytes}
use dumbos_dumbos.Payload.Layout.{of_bytes-to_bytes}
use dumbos_dumbos.Payload.Fields.{dp_validate_size, dp_get_data_size}
use dumbos_dumbos.Payload.Sign.{dp_verify}
use dumbos_dumbos.Tool.Sets.{cmd_command_set}
use dumbos_dumbos.Tool.Main.{
  overwritten, new_struct, new_payload, cmd_sign, set_expire, cmd_set_data,
}
use dumbos_dumbos.Tool.SizeLaws.{IsUnsized, Unsized, written}
use dumbos_dumbos.Tool.SetLaws.{cmd_command_set-Keeps}
use dumbos_dumbos.Tool.Edits.{cmd_sign-Keeps, set_expire-Keeps, cmd_set_data-Keeps}

-- A command of the tool that changes a payload, but for set-cmd-raw.
pub data Edit : Type 0 where
  sign : Bytes → Edit
  expire : Bytes → Edit
  set_cmd : List Bytes → Edit
  data_set : Bytes → Edit

unfoldable pub run_edit : Openssl → Bytes → Edit → Files → Files
run_edit o path (sign key) fs = (cmd_sign o path key fs).1
run_edit o path (expire time) fs = (set_expire path time fs).1
run_edit o path (set_cmd args) fs = (cmd_command_set path args fs).1
run_edit o path (data_set file) fs = (cmd_set_data path file fs).1

unfoldable pub run_edits : Openssl → Bytes → List Edit → Files → Files
unfolding run_edit
run_edits o path [] fs = fs
run_edits o path (e ∷ es) fs = run_edits o path es (run_edit o path e fs)

run_edit-Unsized :
    (o : Openssl) (path : Bytes) (e : Edit) (fs : Files)
    → Unsized path fs
    → Unsized path (run_edit o path e fs)
unfolding run_edit
run_edit-Unsized o path (sign key) fs h = cmd_sign-Keeps path fs h o key
run_edit-Unsized o path (expire time) fs h = set_expire-Keeps path fs h time
run_edit-Unsized o path (set_cmd args) fs h = cmd_command_set-Keeps path fs h args
run_edit-Unsized o path (data_set file) fs h = cmd_set_data-Keeps path fs h file

run_edits-Unsized :
    (o : Openssl) (path : Bytes) (es : List Edit) (fs : Files)
    → Unsized path fs
    → Unsized path (run_edits o path es fs)
unfolding run_edits
run_edits-Unsized o path [] fs h = h
run_edits-Unsized o path (e ∷ es) fs h =
    run_edits-Unsized o path es (run_edit o path e fs) (run_edit-Unsized o path e fs h)

new_payload-Unsized :
    (path padding : Bytes) (fs : Files)
    → length padding ≡ 3
    → lookup path fs ≡ none
    → Unsized path (new_payload path padding fs).1
unfolding new_payload
new_payload-Unsized path padding fs h missing =
    written path _ (new_struct padding) fs
      (record {
        sizes = record {
          signature_length = refl;
          expire_length = refl;
          command_length = refl;
          padding_length = h;
          data_size_length = refl;
        };
        no_size = refl;
      })
      (ap (λ (o : Option Bytes). overwritten (to_bytes (new_struct padding)) o) missing)

validate_unsized :
    (p : Payload) (n : ℕ)
    → p.data_size ≡ 0 ∷ 0 ∷ 0 ∷ 0 ∷ []
    → base_size < n
    → dp_validate_size p n ≡ false
unfolding dp_validate_size dp_get_data_size
validate_unsized p n none_set long = rw none_set (wrong_size n long)
  where
    wrong_size :
        (n : ℕ) → base_size < n → (if ltb n base_size then false else 0 + base_size == n) ≡ false
    wrong_size n l = ground arith

-- A payload with data and without a size.
refuses :
    (o : Openssl) (p : Payload) (key : Bytes)
    → IsUnsized p
    → base_size < length (to_bytes p)
    → (dp_verify o p (length (to_bytes p)) key).0 ≡ err einval
unfolding dp_verify
refuses o p key h long = elim (Bool-cases (length key == 64)) [
  | inr e ↦ rw e refl
  | inl e ↦ rw (e, validate_unsized p (length (to_bytes p)) h.no_size long) refl
]

-- Whatever commands of the tool but set-cmd-raw follow on `new` in any order, and whatever they are
-- given, dp_verify refuses the payload with EINVAL under every key as soon as it has data: the
-- commands write data behind the struct, and none of them sets its data_size.
pub run_edits-dp_verify :
    (o : Openssl) (path padding key b : Bytes) (es : List Edit) (fs : Files)
    → length padding ≡ 3
    → lookup path fs ≡ none
    → lookup path (run_edits o path es (new_payload path padding fs).1) ≡ some b
    → base_size < length b
    → (dp_verify o (of_bytes b) (length b) key).0 ≡ err einval
run_edits-dp_verify o path padding key b es fs n missing found long =
    let (p, e, h) =
      run_edits-Unsized o path es (new_payload path padding fs).1
        (new_payload-Unsized path padding fs n missing) b found in
    subst (λ (x : Bytes). (dp_verify o (of_bytes x) (length x) key).0 ≡ err einval) (sym e)
      (subst (λ (q : Payload). (dp_verify o q (length (to_bytes p)) key).0 ≡ err einval)
        (sym (of_bytes-to_bytes p h.sizes))
        (refuses o p key h (subst (λ (x : Bytes). base_size < length x) e long)))
