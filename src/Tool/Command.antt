-- ===== src/Tool/Command.antt =====
-- server/src/dumb-main.c: main(), which finds the command among the arguments, and the commands mkkey
-- and expire without a time. What is printed is left out.
use dumbos_dumbos.Base.{
  ℕ, List, [], ◌∷◌, ◌++◌, Bytes, codes, Result, ok, err, if◌then◌else◌, take, streq,
}
use dumbos_dumbos.Files.{Files, insert}
use dumbos_dumbos.Ed25519.{Openssl}
use dumbos_dumbos.Tool.{Run, dp_malloc_load}
use dumbos_dumbos.Tool.Sets.{cmd_command_set}
use dumbos_dumbos.Tool.Main.{
  new_payload, cmd_sign, verify_payload, set_expire, cmd_command_set_raw, cmd_get_command,
  cmd_dump_data, cmd_set_data, UserCalls, cmd_new_user,
}

-- OpenSSL, the padding of a new struct, the outcomes for a new user, what ed25519_generate_keypair_hex returns, and the strings that
-- its two arrays hold then.
pub record Env : Type 0 where
  pub openssl : Openssl
  pub padding : Bytes
  pub user_calls : UserCalls
  pub keypair : Result (Unit {0})
  pub publickey : Bytes
  pub privatekey : Bytes

-- The two headers. Whether a key pair was made is not looked at.
unfoldable pub generate_key : Env → Files → Run
generate_key env fs = (
  0,
  insert (codes "key_private.h")
      (codes
          "#ifndef _PRIVKEY_HEADER_H\n#define _PRIVKEY_HEADER_H\nstatic const char _ed25519_private_key_hex[] =\""
        ++ (env.privatekey ++ codes "\";\n#endif"))
      (insert (codes "key_public.h")
        (codes
            "#ifndef _PUBKEY_HEADER_H\n#define _PUBKEY_HEADER_H\nstatic const char _ed25519_public_key_hex[] =\""
          ++ (env.publickey ++ codes "\";\n#endif"))
        fs),
)

abbrev pub exit_code {ℓ} : {A : Type ℓ} → Result A → ℕ
exit_code (ok a) = 0
exit_code (err e) = e

-- get_or_set_expire with NULL.
unfoldable pub get_expire : Bytes → Files → ℕ
get_expire path fs = exit_code (dp_malloc_load path fs)

abbrev pub with_keypair : Env → Bytes → Files → Result (Unit {0}) → Run
with_keypair env name fs (err e) = (e, fs)
with_keypair env name fs (ok _) = cmd_new_user env.user_calls name env.publickey env.privatekey fs

pub data ToolCommand : Type 0 where
  new expire mkkey verify help set_raw set get_cmd data_dump set_data new_user sign : ToolCommand
  no_command : ToolCommand

abbrev pub command_of : Bytes → ToolCommand
command_of cmd =
    if streq (codes "new") cmd
    then new
    else if streq (codes "expire") cmd
    then expire
    else if streq (codes "mkkey") cmd
    then mkkey
    else if streq (codes "verify") cmd
    then verify
    else if streq (codes "help") cmd
    then help
    else if streq (codes "set-cmd-raw") cmd
    then set_raw
    else if streq (codes "set-cmd") cmd
    then set
    else if streq (codes "get-cmd") cmd
    then get_cmd
    else if streq (codes "data-dump") cmd
    then data_dump
    else if streq (codes "data-set") cmd
    then set_data
    else if streq (codes "new-user") cmd
    then new_user
    else if streq (codes "sign") cmd
    then sign
    else no_command

module _ (env : Env) (path raw_path : Bytes) where
  -- The arguments behind the command; the last clause is the general help.
  unfoldable pub run_tool : ToolCommand → List Bytes → Files → Run
  unfolding new_payload set_expire get_expire generate_key verify_payload cmd_command_set_raw
      cmd_command_set cmd_get_command cmd_dump_data cmd_set_data cmd_new_user cmd_sign
  run_tool new [] fs = new_payload path env.padding fs
  run_tool expire (time ∷ []) fs = set_expire path time fs
  run_tool expire [] fs = (get_expire path fs, fs)
  run_tool mkkey args fs = generate_key env fs
  run_tool verify (key ∷ []) fs = (verify_payload env.openssl path key fs, fs)
  run_tool help (cmd ∷ []) fs = (0, fs)
  run_tool set_raw (command ∷ []) fs = cmd_command_set_raw path command fs
  run_tool set (cmd ∷ args) fs = cmd_command_set path (cmd ∷ args) fs
  run_tool get_cmd [] fs = (exit_code (cmd_get_command path fs), fs)
  run_tool data_dump [] fs = (exit_code (cmd_dump_data path fs), fs)
  run_tool set_data (data_path ∷ []) fs = cmd_set_data path data_path fs
  run_tool new_user [] fs = with_keypair env raw_path fs env.keypair
  run_tool sign (priv_key_hex ∷ []) fs = cmd_sign env.openssl path priv_key_hex fs
  run_tool cmd args fs = (1, fs)

-- snprintf into PATH_MAX - 1 bytes.
abbrev pub code_path : Bytes → Bytes
code_path name = take 4094 (codes "code-" ++ name)

-- argc and argv.
unfoldable pub dumb_main : Env → List Bytes → Files → Run
unfolding run_tool
dumb_main env (argv0 ∷ name ∷ cmd ∷ args) fs =
    run_tool env (code_path name) name (command_of cmd) args fs
dumb_main env argv fs = (1, fs)
