-- ===== src/Daemon/Payloads.antt =====
-- daemon/secret_code.c, handle_one_payload, and daemon/payload_cmd.c, payload_cmd_composite, as they
-- are compiled without DEBUG_MODE. They call each other: a composite payload holds payloads. The
-- depth of that recursion is fuel, and `none` stands for running out of it.
use dumbos_dumbos.Base.{
  ℕ, zero, suc, ◌+◌, ◌-◌, ◌*◌, Bool, true, false, List, [], ◌∷◌, Option, none, some, Bytes, codes,
  c_str, streq, Result, ok, err, ltb, if◌then◌else◌, take, drop,
}
use dumbos_dumbos.Base.Int.{ℤ, pos}
use dumbos_dumbos.Base.Errno.{einval, enosys, ekeyexpired}
use dumbos_dumbos.Ed25519.{Openssl}
use dumbos_dumbos.Payload.{Payload, base_size, of_bytes, ntohl}
use dumbos_dumbos.Payload.Expire.{dp_is_expired_compare}
use dumbos_dumbos.Payload.Sign.{dp_verify}
use dumbos_dumbos.Daemon.{
  Action, install_this, install_path, files_export, files_import, adb_enable, adb_disable,
  wifi_enable, wifi_disable, oem_unlock, oem_lock, firewall_add, firewall_remove, firewall_add_temp,
  firewall_flush, singbox_add, singbox_del, Device, Phone, write_message, run_action,
}

abbrev pub Handled : Type 0
Handled = Option (ℤ × Device)

-- What a command name stands for.
pub data Command : Type 0 where
  nothing : Command
  act : Action → Command
  composite : Command
  unknown : Command

abbrev pub command_table : List (Bytes × Command)
command_table =
    (codes "ok", nothing)
    ∷ (codes "install-this", act install_this)
    ∷ (codes "install-path", act install_path)
    ∷ (codes "export-files", act files_export)
    ∷ (codes "import-files", act files_import)
    ∷ (codes "adb-enable", act adb_enable)
    ∷ (codes "adb-disable", act adb_disable)
    ∷ (codes "wifi-enable", act wifi_enable)
    ∷ (codes "wifi-disable", act wifi_disable)
    ∷ (codes "oem-unlock", act oem_unlock)
    ∷ (codes "oem-lock", act oem_lock)
    ∷ (codes "composite", composite)
    ∷ (codes "fw-allow", act firewall_add)
    ∷ (codes "fw-deny", act firewall_remove)
    ∷ (codes "fw-tmp-add", act firewall_add_temp)
    ∷ (codes "fw-flush", act firewall_flush)
    ∷ (codes "singboxadd", act singbox_add)
    ∷ (codes "singboxdel", act singbox_del)
    ∷ []

-- The chain of `else if (streq(cmd, …))`.
abbrev pub find_command : List (Bytes × Command) → Bytes → Command
find_command [] cmd = unknown
find_command ((name, command) ∷ table) cmd =
    if streq cmd name then command else find_command table cmd

-- The command as a string, its last byte forced to NUL.
abbrev pub command_string : Payload → Bytes
command_string p = c_str (take 15 p.command)

-- What a malformed composite gets.
abbrev pub says_invalid : Device → Handled
says_invalid d = some (pos einval, write_message (codes "invalid") d)

-- The end of a round of the loop in payload_cmd_composite.
abbrev pub next : Handled → (Device → Handled) → Handled
next none rest = none
next (some (pos zero, d)) rest = rest d
next (some (code, d)) rest = some (code, write_message (codes "something went wrong") d)

-- The rounds of the loop, with what handles a payload. `data` has `size` bytes.
unfoldable pub composite_loop :
    (Payload → ℕ → Device → Handled)
    → (count : ℕ) (data' : Bytes) (size offset : ℕ) → Device
    → Handled
composite_loop handle zero data' size offset d = some (pos 0, d)
composite_loop handle (suc n) data' size offset d =
    let payload_size = ntohl (take 4 (drop offset data')) in
    if ltb size (offset + 4)
    then says_invalid d
    else if ltb size (offset + 4 + payload_size)
    then says_invalid d
    else if ltb payload_size base_size
    then says_invalid d
    else next (handle (of_bytes (drop (offset + 4) data')) (payload_size - base_size) d)
        (λ d'. composite_loop handle n data' size (offset + 4 + payload_size) d')

-- The payload count, as ntohs reads it.
abbrev pub payload_count : Bytes → ℕ
payload_count (a ∷ b ∷ _) = a * 256 + b
payload_count _ = 0

unfoldable pub payload_cmd_composite :
    (Payload → ℕ → Device → Handled) → Bytes → ℕ → Device → Handled
unfolding composite_loop
payload_cmd_composite handle data' size d =
    if ltb size 2
    then says_invalid d
    else composite_loop handle (payload_count data') data' size 2 d

-- The errno of a failed dp_verify.
abbrev pub errno_of : Result (Unit {0}) → ℕ
errno_of (ok _) = 0
errno_of (err e) = e

module _ (o : Openssl) (pubkey : Bytes) (phone : Phone) where
  -- `handle` handles the payloads of a composite.
  unfoldable pub run_command :
      (Payload → ℕ → Device → Handled) → Command → Bytes → Bytes → ℕ → Device → Handled
  unfolding payload_cmd_composite
  run_command handle nothing cmd data' size d = some (pos 0, write_message (codes "ok") d)
  run_command handle (act action) cmd data' size d = some (run_action phone action data' d)
  run_command handle composite cmd data' size d = payload_cmd_composite handle data' size d
  run_command handle unknown cmd data' size d =
      some (pos enosys, write_message cmd (write_message (codes "unknown command:") d))

  -- Behind dp_verify.
  abbrev pub verified :
      (Payload → ℕ → Device → Handled)
      → Payload
      → ℕ
      → Device
      → Result (Unit {0}) × Payload
      → Handled
  verified handle before size d (err e, p) =
      some (pos e, write_message (codes "invalid signature") d)
  verified handle before size d (ok _, p) =
      let cmd = command_string p in
      let d' =
        write_message cmd
          (write_message (codes "command is") (write_message (codes "loading...") d)) in
      run_command handle (find_command command_table cmd) cmd (take size p.payload) size d'

  -- Behind dp_is_expired_compare, which fixes the expiry of the payload in memory.
  abbrev pub unexpired : (Payload → ℕ → Device → Handled) → ℕ → Device → Bool × Payload → Handled
  unexpired handle size d (true, p) = some (pos ekeyexpired, write_message (codes "code expired") d)
  unexpired handle size d (false, p) =
      verified handle p size d (dp_verify o p (size + base_size) pubkey)

  -- `now` is the time(NULL) of dp_get_expire_or_set, `time` the time from the network.
  unfoldable pub handle_fuel : ℕ → ℤ → ℤ → Payload → ℕ → Device → Handled
  unfolding run_command
  handle_fuel zero now time p size d = none
  handle_fuel (suc fuel) now time p size d =
      unexpired (handle_fuel fuel now time) size d (dp_is_expired_compare now p time)

  unfoldable pub handle_one_payload : ℤ → ℤ → Payload → ℕ → Device → Handled
  unfolding handle_fuel
  handle_one_payload now time p size d = handle_fuel (suc size) now time p size d
