-- ===== src/Tool/Sets.antt =====
-- server/src/dumb-tool-cmd-set.c: set-cmd, which sets the command of a payload with its data. The
-- arguments start with the name of the command. A file that is to be packed into itself is read
-- as the empty file that fopen(3) has made of it.
use dumbos_dumbos.Base.{
  ℕ, ◌+◌, ◌%◌, Bool, false, ◌||◌, not, List, [], ◌∷◌, ◌++◌, Option, none, some, Bytes, codes, ◌==◌,
  if◌then◌else◌, length, streq,
}
use dumbos_dumbos.Base.Errno.{einval, enoent}
use dumbos_dumbos.Files.{Files, lookup, insert}
use dumbos_dumbos.Stream.{htons}
use dumbos_dumbos.Payload.{Payload, base_size, htonl}
use dumbos_dumbos.Payload.Fields.{strncpy}
use dumbos_dumbos.Tool.{Run, dp_malloc_load, on_payload, struct_bytes, write_to_disk, put_string}

abbrev pub with_command : Payload → Bytes → Payload
with_command p name = record p { command = strncpy name 16 }

-- The struct alone is written: data that was there is cut off.
abbrev pub bare_set : Bytes → Bytes → Files → Payload → ℕ → Run
bare_set path name fs p size = write_to_disk path (with_command p name) base_size fs

unfoldable pub write_cmd_wrapper : Bytes → Bytes → List Bytes → Files → Run
write_cmd_wrapper path name [] fs = on_payload (bare_set path name fs) fs (dp_malloc_load path fs)
write_cmd_wrapper path name (a ∷ args) fs = (einval, fs)

-- The struct with `content` behind it.
abbrev pub write_with : Bytes → Payload → Bytes → Files → Files
write_with path p content fs = insert path (struct_bytes p base_size ++ content) fs

abbrev pub install_data : Bytes → Payload → Files → Option Bytes → Run
install_data path p fs none = (enoent, fs)
install_data path p fs (some content) = (0, write_with path p content fs)

abbrev pub apk_set : Bytes → Bytes → Files → Payload → ℕ → Run
apk_set path data_path fs p size =
    if streq path data_path
    then (0, write_with path (with_command p (codes "install-this")) [] fs)
    else install_data path (with_command p (codes "install-this")) fs (lookup data_path fs)

unfoldable pub cmd_installthis : Bytes → Bytes → List Bytes → Files → Run
cmd_installthis path name (data_path ∷ []) fs =
    on_payload (apk_set path data_path fs) fs (dp_malloc_load path fs)
cmd_installthis path name args fs = (einval, fs)

-- A path and a checksum, each with its NUL.
abbrev pub path_set : Bytes → Bytes → Bytes → Files → Payload → ℕ → Run
path_set path apk_path sha256 fs p size =
    let content = apk_path ++ (0 ∷ (sha256 ++ 0 ∷ [])) in
    write_to_disk path (record (with_command p (codes "install-path")) { payload = content })
      (base_size + length content) fs

unfoldable pub cmd_installpath : Bytes → Bytes → List Bytes → Files → Run
cmd_installpath path name (apk_path ∷ sha256 ∷ []) fs =
    if not (length sha256 == 64)
    then (einval, fs)
    else on_payload (path_set path apk_path sha256 fs) fs (dp_malloc_load path fs)
cmd_installpath path name args fs = (einval, fs)

-- Strings, each with its NUL.
abbrev pub strings : List Bytes → Bytes
strings [] = []
strings (s ∷ ss) = s ++ (0 ∷ strings ss)

abbrev pub app_set : Bytes → Bytes → List Bytes → Files → Payload → ℕ → Run
app_set path name apps fs p size =
    (0, write_with path (record p { command = put_string 15 name p.command }) (strings apps) fs)

unfoldable pub cmd_firewall : Bytes → Bytes → List Bytes → Files → Run
cmd_firewall path name [] fs = (einval, fs)
cmd_firewall path name (a ∷ args) fs =
    on_payload (app_set path name (a ∷ args) fs) fs (dp_malloc_load path fs)

-- The files one by one: each is its size and its bytes. A file that is not there ends it, and
-- what was written stays.
abbrev pub pack_file : Bytes → ℕ × Bytes → ℕ × Bytes
pack_file content (code, packed) =
    (code, htonl (length content % 4294967296) ++ (content ++ packed))

abbrev pub pack_found : Option Bytes → ℕ × Bytes → ℕ × Bytes
pack_found none rest = (enoent, [])
pack_found (some content) rest = pack_file content rest

unfoldable pub pack : List Bytes → Files → ℕ × Bytes
pack [] fs = (0, [])
pack (name ∷ names) fs = let rest = pack names fs in pack_found (lookup name fs) rest

abbrev pub composite_set : Bytes → Bytes → List Bytes → Files → Payload → ℕ → Run
composite_set path name files fs p size =
    let (code, packed) = pack files (insert path [] fs) in
    (
      code,
      write_with path (record p { command = put_string 15 name p.command })
          (htons (length files) ++ packed) fs,
    )

unfoldable pub cmd_composite : Bytes → Bytes → List Bytes → Files → Run
cmd_composite path name [] fs = (einval, fs)
cmd_composite path name (a ∷ args) fs =
    on_payload (composite_set path name (a ∷ args) fs) fs (dp_malloc_load path fs)

abbrev one_of : Bytes → List Bytes → Bool
one_of cmd [] = false
one_of cmd (name ∷ names) = streq cmd name || one_of cmd names

-- The function that sets a command.
pub data Setter : Type 0 where
  bare : Setter
  install_this : Setter
  install_path : Setter
  firewall : Setter
  composite : Setter
  unknown : Setter

abbrev pub setter_of : Bytes → Setter
setter_of cmd =
    if streq cmd (codes "ok")
    then bare
    else if streq cmd (codes "install-this")
    then install_this
    else if streq cmd (codes "install-path")
    then install_path
    else if one_of cmd (codes "import-files" ∷ codes "export-files" ∷ [])
    then bare
    else if one_of cmd (codes "adb-enable" ∷ codes "adb-disable" ∷ [])
    then bare
    else if one_of cmd (codes "wifi-enable" ∷ codes "wifi-disable" ∷ [])
    then bare
    else if one_of cmd (codes "oem-lock" ∷ codes "oem-unlock" ∷ [])
    then bare
    else if streq cmd (codes "fw-flush")
    then bare
    else if one_of cmd (codes "fw-allow" ∷ codes "fw-deny" ∷ codes "fw-tmp-add" ∷ [])
    then firewall
    else if streq cmd (codes "composite")
    then composite
    else unknown

unfoldable pub run_setter : Setter → Bytes → Bytes → List Bytes → Files → Run
unfolding write_cmd_wrapper cmd_installthis cmd_installpath cmd_firewall cmd_composite
run_setter bare path cmd args fs = write_cmd_wrapper path cmd args fs
run_setter install_this path cmd args fs = cmd_installthis path cmd args fs
run_setter install_path path cmd args fs = cmd_installpath path cmd args fs
run_setter firewall path cmd args fs = cmd_firewall path cmd args fs
run_setter composite path cmd args fs = cmd_composite path cmd args fs
run_setter unknown path cmd args fs = (einval, fs)

unfoldable pub cmd_command_set : Bytes → List Bytes → Files → Run
unfolding run_setter
cmd_command_set path [] fs = (einval, fs)
cmd_command_set path (cmd ∷ args) fs = run_setter (setter_of cmd) path cmd args fs
