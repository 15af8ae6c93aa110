-- ===== src/Session/Commands.antt =====
-- daemon/command.c, do_command without DEBUG_MODE. secret_code and cmd_upload_data are those
-- of Daemon/SecretCode and Daemon/Upload; the programs that the actions of a payload run are not listed.
-- /dev/dumbos-userdata is `user_file`, and init(8), which copies the new
-- user data to it, is not modelled, nor is the text on the lock screen.
use dumbos_dumbos.Base.{
  ℕ, zero, suc, Bool, true, List, [], ◌∷◌, Option, none, some, Bytes, codes, Result, ok, err, streq,
  ◌==◌, if◌then◌else◌,
}
use dumbos_dumbos.Base.Int.{ℤ, pos}
use dumbos_dumbos.Base.Errno.{einval, enoent, eusers}
use dumbos_dumbos.Hex.{malloc_hex_to_buf}
use dumbos_dumbos.User.{UserData, username_of, dumbos_alloc_get_user, dumbos_get_fancy_name}
use dumbos_dumbos.Daemon.Payloads.{Handled}
use dumbos_dumbos.Daemon.Scripts.{Host, set_oem_lock}
use dumbos_dumbos.Daemon.SecretCode.{Net, secret_code}
use dumbos_dumbos.Daemon.Upload.{Access, Uploaded, cmd_upload_data}
use dumbos_dumbos.Session.{Reply, version_string}

-- What a command wrote to the client, its code, the programs it ran, and the file that it wrote to
-- /dev/dumbos-userdata-new.
pub record Did : Type 0 where
  pub said : List Bytes
  pub result : ℤ
  pub ran : List (List Bytes)
  pub written : Option Bytes

pub record Env : Type 0 where
  pub user_file : Option Bytes
  -- what fopen(3) and fwrite(3) of the new file give
  pub open_new : Result (Unit {0})
  pub write_new : Result (Unit {0})
  pub host : Host
  pub char_is_signed : Bool
  pub net : Net
  pub files : Access

abbrev pub did : List Bytes → ℤ → Did
did said result = record { said = said; result = result; ran = []; written = none }

-- The network with the user of the phone.
abbrev pub net_of : Env → Net
net_of env = record env.net { user_file = env.user_file; char_is_signed = env.char_is_signed }

-- secret_code always ends, so `none` is no case of it.
abbrev pub handled : Handled → Did
handled none = did [] (pos 0)
handled (some (code, d)) = did d.messages code

abbrev pub run_secret_code : Env → List Bytes → Did
run_secret_code env args =
    handled (secret_code (net_of env) args (record { messages = []; calls = [] }))

abbrev pub uploaded : Uploaded → Did
uploaded u = did u.said u.code

abbrev pub run_upload_data : Env → List Bytes → Did
run_upload_data env args = uploaded (cmd_upload_data (net_of env) env.files args)

abbrev pub names_of : Result UserData → Did
names_of (err e) = did (codes "internal error" ∷ []) (pos e)
names_of (ok u) = did (username_of u ∷ dumbos_get_fancy_name u ∷ []) (pos 0)

unfoldable pub cmd_get_username : Env → Did
cmd_get_username env = names_of (dumbos_alloc_get_user env.user_file)

abbrev pub setprop : List Bytes
setprop = codes "/system/bin/setprop" ∷ codes "dumbos.newuser" ∷ codes "1" ∷ []

abbrev pub after_setprop : Bytes → Result ℕ → Did
after_setprop content (err e) = record {
  said = codes "internal error" ∷ [];
  result = pos e;
  ran = setprop ∷ [];
  written = some content;
}
after_setprop content (ok (suc n)) = record {
  said = codes "internal error" ∷ [];
  result = pos (suc n);
  ran = setprop ∷ [];
  written = some content;
}
after_setprop content (ok zero) = record {
  said = codes "done." ∷ [];
  result = pos 0;
  ran = setprop ∷ [];
  written = some content;
}

-- A write that fails leaves the file that fopen(3) made.
abbrev pub after_write : Env → Bytes → Result (Unit {0}) → Did
after_write env content (err e) = record {
  said = codes "internal error" ∷ [];
  result = pos e;
  ran = [];
  written = some [];
}
after_write env content (ok _) = after_setprop content (env.host.execv setprop)

abbrev pub after_open : Env → Bytes → Result (Unit {0}) → Did
after_open env content (err e) = did [] (pos e)
after_open env content (ok _) = after_write env content env.write_new

-- Only a user file that is not there lets a user be set.
abbrev pub after_user : Env → Bytes → Result UserData → Did
after_user env content (ok u) = did (codes "a user has already been set" ∷ []) (pos eusers)
after_user env content (err e) =
    if e == enoent
    then after_open env content env.open_new
    else did (codes "a user has already been set" ∷ []) (pos eusers)

abbrev pub after_decode : Env → Result Bytes → Did
after_decode env (err e) =
    did ((if e == einval then codes "bad data" else codes "internal error") ∷ []) (pos e)
after_decode env (ok content) = after_user env content (dumbos_alloc_get_user env.user_file)

unfoldable pub cmd_setname : Env → List Bytes → Did
cmd_setname env [] = did (codes "not enough data provided" ∷ []) (pos einval)
cmd_setname env (hex ∷ args) = after_decode env (malloc_hex_to_buf env.char_is_signed hex)

unfoldable pub oem_locking : Env → Bool → Did
oem_locking env lock =
    let r = set_oem_lock env.host lock in
    record {
      said = (if lock then codes "disabling OEM unlock" else codes "enabling OEM unlock") ∷ [];
      result = r.code;
      ran = r.programs;
      written = none;
    }

unfoldable pub cmd_version : Did
cmd_version = did (version_string ∷ []) (pos 0)

pub data Builtin : Type 0 where
  cmd_ok cmd_notok cmd_code cmd_username cmd_oem_lock cmd_show_version cmd_set_name cmd_upload :
      Builtin

-- commands_list with its enum.
abbrev pub commands_list : List (Bytes × Builtin)
commands_list =
    (codes "ok", cmd_ok)
    ∷ (codes "notok", cmd_notok)
    ∷ (codes "code", cmd_code)
    ∷ (codes "get_name", cmd_username)
    ∷ (codes "oem_lock", cmd_oem_lock)
    ∷ (codes "version", cmd_show_version)
    ∷ (codes "set_name", cmd_set_name)
    ∷ (codes "upload_data", cmd_upload)
    ∷ []

abbrev pub find_builtin : List (Bytes × Builtin) → Bytes → Option Builtin
find_builtin [] name = none
find_builtin ((n, b) ∷ table) name = if streq n name then some b else find_builtin table name

abbrev pub run_builtin : Env → List Bytes → Option Builtin → Did
run_builtin env args none = did (codes "Bad command" ∷ []) (pos einval)
run_builtin env args (some cmd_ok) = did [] (pos 0)
run_builtin env args (some cmd_notok) = did [] (pos 1)
run_builtin env args (some cmd_code) = run_secret_code env args
run_builtin env args (some cmd_username) = cmd_get_username env
run_builtin env args (some cmd_oem_lock) = oem_locking env true
run_builtin env args (some cmd_show_version) = cmd_version
run_builtin env args (some cmd_set_name) = cmd_setname env args
run_builtin env args (some cmd_upload) = run_upload_data env args

-- The handler never calls it without arguments.
unfoldable pub do_command : Env → List Bytes → Did
unfolding cmd_get_username oem_locking cmd_version cmd_setname secret_code cmd_upload_data
do_command env [] = run_builtin env [] none
do_command env (name ∷ args) = run_builtin env args (find_builtin commands_list name)

-- do_command as the handler calls it.
unfoldable pub command_reply : Env → List Bytes → Reply
unfolding do_command
command_reply env argv =
    let d = do_command env argv in record { messages = d.said; code = d.result }
