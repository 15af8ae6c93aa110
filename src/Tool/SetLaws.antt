-- ===== src/Tool/SetLaws.antt =====
-- server/src/dumb-tool-cmd-set.c: payloads whose command is set with the tool alone.
use dumbos_dumbos.Base.{
  ℕ, ◌+◌, List, [], ◌∷◌, ◌++◌, Bytes, codes, length, take, Option, none, some, streq, not, ◌==◌,
}
use dumbos_dumbos.Files.{Files, lookup, insert}
use dumbos_dumbos.Stream.{htons}
use dumbos_dumbos.Payload.{Payload, base_size}
use dumbos_dumbos.Payload.Fields.{strncpy}
use dumbos_dumbos.Tool.{struct_bytes, write_to_disk, put_string}
use dumbos_dumbos.Tool.Struct.{struct_bytes_data, struct_bytes-append}
use dumbos_dumbos.Tool.Sets.{
  Setter, bare, install_this, install_path, firewall, composite, unknown, setter_of, run_setter,
  bare_set, apk_set, path_set, app_set, composite_set, with_command, write_with, write_cmd_wrapper,
  cmd_installthis, install_data, cmd_installpath, cmd_firewall, cmd_composite, cmd_command_set,
  strings, pack,
}
use dumbos_dumbos.Tool.SizeLaws.{
  IsUnsized, Unsized, Keeps, written, if-Keeps, on_payload-Keeps, length-strncpy, length-put_string,
  command_changed,
}

module _ (path : Bytes) (fs : Files) (unsized : Unsized path fs) where
  to_disk-Keeps :
      (p : Payload) (n : ℕ)
      → IsUnsized p
      → Keeps path fs unsized (write_to_disk path p (base_size + n) fs)
  to_disk-Keeps p n h =
      written path (struct_bytes p (base_size + n)) (record p { payload = take n p.payload }) fs
        (command_changed p p.command (take n p.payload) h h.sizes.command_length)
        (struct_bytes_data p n h.sizes)

  pub write_with-Keeps :
      (p : Payload) (content : Bytes) → IsUnsized p → Unsized path (write_with path p content fs)
  write_with-Keeps p content h =
      written path (struct_bytes p base_size ++ content) (record p { payload = content }) fs
        (command_changed p p.command content h h.sizes.command_length)
        (struct_bytes-append p content h.sizes)

  named : (p : Payload) (name : Bytes) → IsUnsized p → IsUnsized (with_command p name)
  named p name h = command_changed p (strncpy name 16) p.payload h (length-strncpy name)

  put :
      (p : Payload) (name : Bytes)
      → IsUnsized p
      → IsUnsized (record p { command = put_string 15 name p.command })
  put p name h =
      command_changed p (put_string 15 name p.command) p.payload h
        (length-put_string name p.command h.sizes.command_length)

  write_cmd_wrapper-Keeps :
      (name : Bytes) (args : List Bytes)
      → Keeps path fs unsized (write_cmd_wrapper path name args fs)
  unfolding write_cmd_wrapper
  write_cmd_wrapper-Keeps name [] =
      on_payload-Keeps path fs unsized (bare_set path name fs)
        (λ p h e. to_disk-Keeps (with_command p name) 0 (named p name h))
  write_cmd_wrapper-Keeps name (a ∷ args) = unsized

  install_data-Keeps :
      (p : Payload) (o : Option Bytes)
      → IsUnsized p
      → Keeps path fs unsized (install_data path p fs o)
  install_data-Keeps p none h = unsized
  install_data-Keeps p (some content) h = write_with-Keeps p content h

  cmd_installthis-Keeps :
      (name : Bytes) (args : List Bytes) → Keeps path fs unsized (cmd_installthis path name args fs)
  unfolding cmd_installthis
  cmd_installthis-Keeps name [] = unsized
  cmd_installthis-Keeps name (data_path ∷ []) =
      on_payload-Keeps path fs unsized (apk_set path data_path fs) (λ p h e.
        let q = named p (codes "install-this") h in
        if-Keeps (λ r. Keeps path fs unsized r) (streq path data_path) _ _
          (write_with-Keeps (with_command p (codes "install-this")) [] q)
          (install_data-Keeps (with_command p (codes "install-this")) (lookup data_path fs) q))
  cmd_installthis-Keeps name (a ∷ b ∷ args) = unsized

  cmd_installpath-Keeps :
      (name : Bytes) (args : List Bytes) → Keeps path fs unsized (cmd_installpath path name args fs)
  unfolding cmd_installpath
  cmd_installpath-Keeps name [] = unsized
  cmd_installpath-Keeps name (a ∷ []) = unsized
  cmd_installpath-Keeps name (apk_path ∷ sha256 ∷ []) =
      let content = apk_path ++ (0 ∷ (sha256 ++ 0 ∷ [])) in
      if-Keeps (λ r. Keeps path fs unsized r) (not (length sha256 == 64)) _ _ unsized
        (on_payload-Keeps path fs unsized (path_set path apk_path sha256 fs) (λ p h e.
          to_disk-Keeps (record (with_command p (codes "install-path")) { payload = content })
            (length content)
            (command_changed p (strncpy (codes "install-path") 16) content h
              (length-strncpy (codes "install-path")))))
  cmd_installpath-Keeps name (a ∷ b ∷ c ∷ args) = unsized

  cmd_firewall-Keeps :
      (name : Bytes) (args : List Bytes) → Keeps path fs unsized (cmd_firewall path name args fs)
  unfolding cmd_firewall
  cmd_firewall-Keeps name [] = unsized
  cmd_firewall-Keeps name (a ∷ args) =
      on_payload-Keeps path fs unsized (app_set path name (a ∷ args) fs) (λ p h e.
        write_with-Keeps (record p { command = put_string 15 name p.command }) (strings (a ∷ args))
          (put p name h))

  cmd_composite-Keeps :
      (name : Bytes) (args : List Bytes) → Keeps path fs unsized (cmd_composite path name args fs)
  unfolding cmd_composite
  cmd_composite-Keeps name [] = unsized
  cmd_composite-Keeps name (a ∷ args) =
      on_payload-Keeps path fs unsized (composite_set path name (a ∷ args) fs) (λ p h e.
        write_with-Keeps (record p { command = put_string 15 name p.command })
          (htons (length (a ∷ args)) ++ (pack (a ∷ args) (insert path [] fs)).1) (put p name h))

  run_setter-Keeps :
      (setter : Setter) (cmd : Bytes) (args : List Bytes)
      → Keeps path fs unsized (run_setter setter path cmd args fs)
  unfolding run_setter
  run_setter-Keeps bare cmd args = write_cmd_wrapper-Keeps cmd args
  run_setter-Keeps install_this cmd args = cmd_installthis-Keeps cmd args
  run_setter-Keeps install_path cmd args = cmd_installpath-Keeps cmd args
  run_setter-Keeps firewall cmd args = cmd_firewall-Keeps cmd args
  run_setter-Keeps composite cmd args = cmd_composite-Keeps cmd args
  run_setter-Keeps unknown cmd args = unsized

  pub cmd_command_set-Keeps :
      (args : List Bytes) → Keeps path fs unsized (cmd_command_set path args fs)
  unfolding cmd_command_set
  cmd_command_set-Keeps [] = unsized
  cmd_command_set-Keeps (cmd ∷ args) = run_setter-Keeps (setter_of cmd) cmd args
