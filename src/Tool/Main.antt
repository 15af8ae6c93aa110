-- ===== src/Tool/Main.antt =====
-- server/src/dumb-main.c: the commands that make, sign and print payloads and make users.
use dumbos_dumbos.Base.{
  ℕ, ◌+◌, ◌-◌, [], ◌∷◌, ◌++◌, Option, none, some, Bytes, codes, c_str, Result, ok, err, ltb,
  if◌then◌else◌, length, take, drop, replicate, streq,
}
use dumbos_dumbos.Base.Errno.{enoent, e2big, eacces}
use dumbos_dumbos.Files.{Files, lookup, insert}
use dumbos_dumbos.Ed25519.{Openssl}
use dumbos_dumbos.Payload.{Payload, base_size, expire_size, to_bytes, of_bytes}
use dumbos_dumbos.Payload.Sign.{dp_sign, dp_verify}
use dumbos_dumbos.User.{user_bytes, UserData, dumbos_alloc_new_user}
use dumbos_dumbos.Tool.{Run, dp_malloc_load, on_payload, struct_bytes}

-- A string that fills a field up with NULs, but for a newline in its last byte.
abbrev marked_field : ℕ → Bytes → Bytes
marked_field size s = take (size - 1) (s ++ replicate size 0) ++ 10 ∷ []

-- The compiler chooses the bytes of the padding.
abbrev pub new_struct : Bytes → Payload
new_struct padding = record {
  signature = marked_field 129 (codes "signature here (dont touch)");
  expire = marked_field 16 (codes "expire here");
  command = marked_field 16 (codes "cmd here");
  padding = padding;
  data_size = 0 ∷ 0 ∷ 0 ∷ 0 ∷ [];
  payload = [];
}

-- What write_all leaves in a file that was opened without O_TRUNC.
abbrev pub overwritten : Bytes → Option Bytes → Bytes
overwritten b none = b
overwritten b (some old) = b ++ drop (length b) old

unfoldable pub new_payload : Bytes → Bytes → Files → Run
new_payload path padding fs =
    (0, insert path (overwritten (to_bytes (new_struct padding)) (lookup path fs)) fs)

abbrev pub write_back : Bytes → ℕ → Files → Payload → Run
write_back path size fs p = (0, insert path (overwritten (struct_bytes p size) (lookup path fs)) fs)

abbrev pub signed_back : Bytes → ℕ → Files → Result (Unit {0}) × Payload → Run
signed_back path size fs (err e, p) = (e, fs)
signed_back path size fs (ok _, p) = write_back path size fs p

abbrev pub sign_set : Openssl → Bytes → Bytes → Files → Payload → ℕ → Run
sign_set o path priv_key_hex fs p size = signed_back path size fs (dp_sign o p size priv_key_hex)

unfoldable pub cmd_sign : Openssl → Bytes → Bytes → Files → Run
cmd_sign o path priv_key_hex fs =
    on_payload (sign_set o path priv_key_hex fs) fs (dp_malloc_load path fs)

abbrev pub verdict_code : Result (Unit {0}) → ℕ
verdict_code (ok _) = 0
verdict_code (err e) = eacces

abbrev pub verify_loaded : Openssl → Bytes → Result Bytes → ℕ
verify_loaded o key (err e) = e
verify_loaded o key (ok b) = verdict_code (dp_verify o (of_bytes b) (length b) key).0

unfoldable pub verify_payload : Openssl → Bytes → Bytes → Files → ℕ
verify_payload o path key fs = verify_loaded o key (dp_malloc_load path fs)

abbrev pub expire_set : Bytes → Bytes → Files → Payload → ℕ → Run
expire_set path expire fs p size =
    if ltb (expire_size - 1) (length expire)
    then (e2big, fs)
    else write_back path size fs
        (record p { expire = expire ++ replicate (expire_size - length expire) 0 })

-- get_or_set_expire with a time.
unfoldable pub set_expire : Bytes → Bytes → Files → Run
set_expire path expire fs = on_payload (expire_set path expire fs) fs (dp_malloc_load path fs)

-- strcpy into the command, also of a string that is too long for it: the fields behind it are
-- written over. (Behind the buffer, nothing is modelled.)
abbrev pub strcpy_command : Bytes → Bytes → Bytes
strcpy_command command b =
    take (length b) (take 145 b ++ (command ++ (0 ∷ drop (145 + length command + 1) b)))

abbrev pub raw_loaded : Bytes → Bytes → Files → Result Bytes → Run
raw_loaded path command fs (err e) = (e, fs)
raw_loaded path command fs (ok b) = (0, insert path (strcpy_command command b) fs)

unfoldable pub cmd_command_set_raw : Bytes → Bytes → Files → Run
cmd_command_set_raw path command fs = raw_loaded path command fs (dp_malloc_load path fs)

-- `printf("%s")` of the command field, which reads on to the first NUL.
abbrev command_printed : Result Bytes → Result Bytes
command_printed (err e) = err e
command_printed (ok b) = ok (c_str (drop 145 b))

unfoldable pub cmd_get_command : Bytes → Files → Result Bytes
cmd_get_command path fs = command_printed (dp_malloc_load path fs)

abbrev data_printed : Result Bytes → Result Bytes
data_printed (err e) = err e
data_printed (ok b) = ok (of_bytes b).payload

unfoldable pub cmd_dump_data : Bytes → Files → Result Bytes
cmd_dump_data path fs = data_printed (dp_malloc_load path fs)

abbrev pub put_data : Bytes → Payload → Files → Option Bytes → Run
put_data path p fs none = (enoent, fs)
put_data path p fs (some content) = (0, insert path (struct_bytes p base_size ++ content) fs)

abbrev pub data_set : Bytes → Bytes → Files → Payload → ℕ → Run
data_set path data_path fs p size =
    put_data path p fs (if streq path data_path then some [] else lookup data_path fs)

-- Data from the file itself is read as the empty file that fopen(3) has made of it.
unfoldable pub cmd_set_data : Bytes → Bytes → Files → Run
cmd_set_data path data_path fs = on_payload (data_set path data_path fs) fs (dp_malloc_load path fs)

-- What mkdir(2) of the user's directory gives, EEXIST for a user that is there, and fopen(3) of the
-- two files.
pub record UserCalls : Type 0 where
  pub mkdir : Result (Unit {0})
  pub open_pubkey : Result (Unit {0})
  pub open_blob : Result (Unit {0})

-- The blob for the phone.
abbrev pub blob_opened : Bytes → UserData → Files → Result (Unit {0}) → Run
blob_opened name u fs (err e) = (e, fs)
blob_opened name u fs (ok _) = (0, insert (name ++ codes ".blob") (user_bytes u) fs)

-- The public key for the server. When its file cannot be opened, 0 is returned.
abbrev pub pubkey_opened : UserCalls → Bytes → Bytes → UserData → Files → Result (Unit {0}) → Run
pubkey_opened c name pubkey u fs (err e) = (0, fs)
pubkey_opened c name pubkey u fs (ok _) =
    blob_opened name u (insert (name ++ codes "/pubkey") (take 64 pubkey) fs) c.open_blob

abbrev pub directory_made : UserCalls → Bytes → Bytes → UserData → Files → Result (Unit {0}) → Run
directory_made c name pubkey u fs (err e) = (e, fs)
directory_made c name pubkey u fs (ok _) = pubkey_opened c name pubkey u fs c.open_pubkey

abbrev pub user_files : UserCalls → Bytes → Bytes → Files → Result UserData → Run
user_files c name pubkey fs (err e) = (e, fs)
user_files c name pubkey fs (ok u) = directory_made c name pubkey u fs c.mkdir

-- The key pair is one that ed25519_generate_keypair_hex has made.
unfoldable pub cmd_new_user : UserCalls → Bytes → Bytes → Bytes → Files → Run
cmd_new_user c name pubkey privkey fs =
    user_files c name pubkey fs (dumbos_alloc_new_user name privkey)
