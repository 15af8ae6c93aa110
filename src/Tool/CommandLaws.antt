-- ===== src/Tool/CommandLaws.antt =====
-- server/src/dumb-main.c and dumb-tool-cmd-set.c: which files the tool writes.
use dumbos_dumbos.Base.{
  ℕ, ◌≡◌, ◌≢◌, refl, ◌∙◌, Bool, true, false, not, List, [], ◌∷◌, ◌++◌, Option, none, some, Bytes,
  codes, Result, ok, err, All, ltb, ◌==◌, if◌then◌else◌, length, take, streq, streq_iff, Bool-cases,
  inl, inr,
}
use dumbos_dumbos.Files.{Files, lookup, insert, lookup-insert}
use dumbos_dumbos.Ed25519.{Openssl}
use dumbos_dumbos.Payload.{Payload}
use dumbos_dumbos.Payload.Sign.{dp_sign}
use dumbos_dumbos.User.{UserData, dumbos_alloc_new_user}
use dumbos_dumbos.Tool.{Run, dp_malloc_load, on_payload}
use dumbos_dumbos.Tool.Sets.{
  Setter, bare, install_this, install_path, firewall, composite, unknown, setter_of, run_setter,
  bare_set, apk_set, path_set, app_set, composite_set, write_cmd_wrapper, install_data,
  with_command, cmd_installthis, cmd_installpath, cmd_firewall, cmd_composite, cmd_command_set,
}
use dumbos_dumbos.Tool.Main.{
  new_payload, sign_set, signed_back, cmd_sign, expire_set, set_expire, raw_loaded,
  cmd_command_set_raw, put_data, data_set, cmd_set_data, UserCalls, blob_opened, pubkey_opened,
  directory_made, user_files, cmd_new_user,
}
use dumbos_dumbos.Tool.Command.{
  Env, generate_key, with_keypair, ToolCommand, new, expire, mkkey, verify, help, set_raw, set,
  get_cmd, data_dump, set_data, new_user, sign, no_command, command_of, run_tool, code_path,
  dumb_main,
}

-- The files that a command may write.
abbrev pub targets : Bytes → Bytes → ToolCommand → List Bytes → List Bytes
targets path name expire [] = []
targets path name expire (time ∷ args) = path ∷ []
targets path name mkkey args = codes "key_private.h" ∷ codes "key_public.h" ∷ []
targets path name verify args = []
targets path name help args = []
targets path name get_cmd args = []
targets path name data_dump args = []
targets path name no_command args = []
targets path name new_user args = (name ++ codes ".blob") ∷ (name ++ codes "/pubkey") ∷ []
targets path name cmd args = path ∷ []

lookup-insert_other :
    (path other content : Bytes) (fs : Files)
    → path ≢ other
    → lookup other (insert path content fs) ≡ lookup other fs
lookup-insert_other path other content fs ne = elim (Bool-cases (streq path other)) [
  | inl t ↦ absurd (ne ((streq_iff path other).0 t))
  | inr t ↦ rw (lookup-insert path other content fs, t) refl
]

module _ (path other : Bytes) (fs : Files) (ne : path ≢ other) where
  abbrev Leaves : Run → Type 0
  Leaves r = lookup other r.1 ≡ lookup other fs

  written_to : (code : ℕ) (content : Bytes) → Leaves (code, insert path content fs)
  written_to code content = lookup-insert_other path other content fs ne

  on_payload-Leaves :
      (f : Payload → ℕ → Run) (r : Result Bytes)
      → ((p : Payload) (n : ℕ) → Leaves (f p n))
      → Leaves (on_payload f fs r)
  on_payload-Leaves f (err e) h = refl
  on_payload-Leaves f (ok b) h = h _ _

  if-Leaves : (b : Bool) (r r' : Run) → Leaves r → Leaves r' → Leaves (if b then r else r')
  if-Leaves true r r' h h' = h
  if-Leaves false r r' h h' = h'

  cmd_sign-Leaves : (o : Openssl) (key : Bytes) → Leaves (cmd_sign o path key fs)
  unfolding cmd_sign
  cmd_sign-Leaves o key =
      on_payload-Leaves (sign_set o path key fs) (dp_malloc_load path fs)
        (λ p n. signed n (dp_sign o p n key))
    where
      signed : (n : ℕ) (r : Result (Unit {0}) × Payload) → Leaves (signed_back path n fs r)
      signed n (err e, q) = refl
      signed n (ok _, q) = written_to 0 _

  set_expire-Leaves : (time : Bytes) → Leaves (set_expire path time fs)
  unfolding set_expire
  set_expire-Leaves time =
      on_payload-Leaves (expire_set path time fs) (dp_malloc_load path fs)
        (λ p n. if-Leaves (ltb 15 (length time)) _ _ refl (written_to 0 _))

  set_raw-Leaves : (command : Bytes) → Leaves (cmd_command_set_raw path command fs)
  unfolding cmd_command_set_raw
  set_raw-Leaves command = raw (dp_malloc_load path fs)
    where
      raw : (r : Result Bytes) → Leaves (raw_loaded path command fs r)
      raw (err e) = refl
      raw (ok b) = written_to 0 _

  cmd_set_data-Leaves : (data_path : Bytes) → Leaves (cmd_set_data path data_path fs)
  unfolding cmd_set_data
  cmd_set_data-Leaves data_path =
      on_payload-Leaves (data_set path data_path fs) (dp_malloc_load path fs)
        (λ p n. put p (if streq path data_path then some [] else lookup data_path fs))
    where
      put : (p : Payload) (o : Option Bytes) → Leaves (put_data path p fs o)
      put p none = refl
      put p (some content) = written_to 0 _

  cmd_installthis-Leaves :
      (cmd : Bytes) (args : List Bytes) → Leaves (cmd_installthis path cmd args fs)
  unfolding cmd_installthis
  cmd_installthis-Leaves cmd [] = refl
  cmd_installthis-Leaves cmd (data_path ∷ []) =
      on_payload-Leaves (apk_set path data_path fs) (dp_malloc_load path fs) (λ p n.
        if-Leaves (streq path data_path) _ _ (written_to 0 _)
          (installed (with_command p (codes "install-this")) (lookup data_path fs)))
    where
      installed : (p : Payload) (o : Option Bytes) → Leaves (install_data path p fs o)
      installed p none = refl
      installed p (some content) = written_to 0 _
  cmd_installthis-Leaves cmd (a ∷ b ∷ args) = refl

  cmd_installpath-Leaves :
      (cmd : Bytes) (args : List Bytes) → Leaves (cmd_installpath path cmd args fs)
  unfolding cmd_installpath
  cmd_installpath-Leaves cmd [] = refl
  cmd_installpath-Leaves cmd (a ∷ []) = refl
  cmd_installpath-Leaves cmd (apk_path ∷ sha256 ∷ []) =
      if-Leaves (not (length sha256 == 64)) _ _ refl (
        on_payload-Leaves (path_set path apk_path sha256 fs) (dp_malloc_load path fs)
          (λ p n. written_to 0 _))
  cmd_installpath-Leaves cmd (a ∷ b ∷ c ∷ args) = refl

  run_setter-Leaves :
      (setter : Setter) (cmd : Bytes) (args : List Bytes)
      → Leaves (run_setter setter path cmd args fs)
  unfolding run_setter write_cmd_wrapper cmd_firewall cmd_composite
  run_setter-Leaves bare cmd [] =
      on_payload-Leaves (bare_set path cmd fs) (dp_malloc_load path fs) (λ p n. written_to 0 _)
  run_setter-Leaves bare cmd (a ∷ args) = refl
  run_setter-Leaves install_this cmd args = cmd_installthis-Leaves cmd args
  run_setter-Leaves install_path cmd args = cmd_installpath-Leaves cmd args
  run_setter-Leaves firewall cmd [] = refl
  run_setter-Leaves firewall cmd (a ∷ args) =
      on_payload-Leaves (app_set path cmd (a ∷ args) fs) (dp_malloc_load path fs)
        (λ p n. written_to 0 _)
  run_setter-Leaves composite cmd [] = refl
  run_setter-Leaves composite cmd (a ∷ args) =
      on_payload-Leaves (composite_set path cmd (a ∷ args) fs) (dp_malloc_load path fs)
        (λ p n. written_to 0 _)
  run_setter-Leaves unknown cmd args = refl

user_files-Leaves :
    (c : UserCalls) (name other key : Bytes) (fs : Files) (r : Result UserData)
    → (name ++ codes ".blob") ≢ other
    → (name ++ codes "/pubkey") ≢ other
    → lookup other (user_files c name key fs r).1 ≡ lookup other fs
user_files-Leaves c name other key fs (err e) blob pub_key = refl
user_files-Leaves c name other key fs (ok u) blob pub_key = made c.mkdir
  where
    gs : Files
    gs = insert (name ++ codes "/pubkey") (take 64 key) fs

    with_blob : (r : Result (Unit {0})) → lookup other (blob_opened name u gs r).1 ≡ lookup other gs
    with_blob (err e) = refl
    with_blob (ok _) = lookup-insert_other (name ++ codes ".blob") other _ gs blob

    with_key :
        (r : Result (Unit {0})) → lookup other (pubkey_opened c name key u fs r).1 ≡ lookup other fs
    with_key (err e) = refl
    with_key (ok _) =
        with_blob c.open_blob ∙ lookup-insert_other (name ++ codes "/pubkey") other _ fs pub_key

    made :
        (r : Result (Unit {0}))
        → lookup other (directory_made c name key u fs r).1 ≡ lookup other fs
    made (err e) = refl
    made (ok _) = with_key c.open_pubkey

module _ (env : Env) (path name other : Bytes) (fs : Files) where
  abbrev IsOther : Bytes → Type 0
  IsOther t = t ≢ other

  with_keypair-Leaves :
      (r : Result (Unit {0}))
      → (name ++ codes ".blob") ≢ other
      → (name ++ codes "/pubkey") ≢ other
      → lookup other (with_keypair env name fs r).1 ≡ lookup other fs
  unfolding cmd_new_user
  with_keypair-Leaves (err e) blob pub_key = refl
  with_keypair-Leaves (ok _) blob pub_key =
      user_files-Leaves env.user_calls name other env.publickey fs
        (dumbos_alloc_new_user name env.privatekey) blob pub_key

  run_tool-Leaves :
      (cmd : ToolCommand) (args : List Bytes)
      → All IsOther (targets path name cmd args)
      → lookup other (run_tool env path name cmd args fs).1 ≡ lookup other fs
  unfolding run_tool new_payload generate_key cmd_command_set
  run_tool-Leaves new [] (ne, _) = written_to path other fs ne 0 _
  run_tool-Leaves new (a ∷ args) h = refl
  run_tool-Leaves expire [] h = refl
  run_tool-Leaves expire (time ∷ []) (ne, _) = set_expire-Leaves path other fs ne time
  run_tool-Leaves expire (a ∷ b ∷ args) h = refl
  run_tool-Leaves mkkey args (private_key, (public_key, _)) =
      lookup-insert_other (codes "key_private.h") other _ _ private_key
      ∙ lookup-insert_other (codes "key_public.h") other _ fs public_key
  run_tool-Leaves verify [] h = refl
  run_tool-Leaves verify (key ∷ []) h = refl
  run_tool-Leaves verify (a ∷ b ∷ args) h = refl
  run_tool-Leaves help [] h = refl
  run_tool-Leaves help (a ∷ []) h = refl
  run_tool-Leaves help (a ∷ b ∷ args) h = refl
  run_tool-Leaves set_raw [] h = refl
  run_tool-Leaves set_raw (command ∷ []) (ne, _) = set_raw-Leaves path other fs ne command
  run_tool-Leaves set_raw (a ∷ b ∷ args) h = refl
  run_tool-Leaves set [] h = refl
  run_tool-Leaves set (cmd ∷ args) (ne, _) =
      run_setter-Leaves path other fs ne (setter_of cmd) cmd args
  run_tool-Leaves get_cmd [] h = refl
  run_tool-Leaves get_cmd (a ∷ args) h = refl
  run_tool-Leaves data_dump [] h = refl
  run_tool-Leaves data_dump (a ∷ args) h = refl
  run_tool-Leaves set_data [] h = refl
  run_tool-Leaves set_data (data_path ∷ []) (ne, _) = cmd_set_data-Leaves path other fs ne data_path
  run_tool-Leaves set_data (a ∷ b ∷ args) h = refl
  run_tool-Leaves new_user [] (blob, (pub_key, _)) = with_keypair-Leaves env.keypair blob pub_key
  run_tool-Leaves new_user (a ∷ args) h = refl
  run_tool-Leaves sign [] h = refl
  run_tool-Leaves sign (key ∷ []) (ne, _) = cmd_sign-Leaves path other fs ne env.openssl key
  run_tool-Leaves sign (a ∷ b ∷ args) h = refl
  run_tool-Leaves no_command args h = refl

-- Whatever the tool is called with, and whether it fails or not, it leaves every file as it is but the
-- targets of the command: a command that changes a payload writes no file but the one of its code,
-- new-user writes the blob and the public key of its user, mkkey the two headers, and verify, help,
-- get-cmd, data-dump, expire without a time and what is no command write nothing.
pub dumb_main-Outside :
    (env : Env) (argv0 name cmd other : Bytes) (args : List Bytes) (fs : Files)
    → All (λ t. t ≢ other) (targets (code_path name) name (command_of cmd) args)
    → lookup other (dumb_main env (argv0 ∷ name ∷ cmd ∷ args) fs).1 ≡ lookup other fs
unfolding dumb_main
dumb_main-Outside env argv0 name cmd other args fs h =
    run_tool-Leaves env (code_path name) name other fs (command_of cmd) args h
