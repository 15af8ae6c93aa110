-- ===== src/Daemon/Scripts.antt =====
-- daemon/payload_cmd.c: script_helper with the firewall and sing-box commands, and the switches of
-- daemon/util.c. execv_wrapper and unlink(2) are the host, an argument.
use dumbos_dumbos.Base.{
  ℕ, zero, suc, ◌-◌, Bool, true, false, ◌||◌, List, [], ◌∷◌, Bytes, codes, Result, ok, err, leb,
  ◌==◌, if◌then◌else◌, length, take,
}
use dumbos_dumbos.Base.Int.{ℤ, pos}
use dumbos_dumbos.Base.Errno.{einval, enoent, enosys}
use dumbos_dumbos.Daemon.{
  Action, install_this, install_path, files_export, files_import, adb_enable, adb_disable,
  wifi_enable, wifi_disable, oem_unlock, oem_lock, firewall_add, firewall_remove, firewall_add_temp,
  firewall_flush, singbox_add, singbox_del, Call, Phone,
}

-- What running a program gives, its exit status or an errno, and what deleting a file gives.
pub record Host : Type 0 where
  pub execv : List Bytes → Result ℕ
  pub unlink : Bytes → Result (Unit {0})

-- The programs that a command ran, its code, and what it wrote to the client.
pub record Ran : Type 0 where
  pub programs : List (List Bytes)
  pub code : ℤ
  pub said : List Bytes

-- One more character before the first string.
abbrev pub prefix_first : ℕ → List Bytes → List Bytes
prefix_first c [] = (c ∷ []) ∷ []
prefix_first c (s ∷ ss) = (c ∷ s) ∷ ss

-- The strings from `data` up to `data_end`, where a NUL stands.
unfoldable pub strings : Bytes → List Bytes
strings [] = []
strings (zero ∷ bs) = [] ∷ strings bs
strings (suc c ∷ []) = (suc c ∷ []) ∷ []
strings (suc c ∷ zero ∷ bs) = (suc c ∷ []) ∷ strings bs
strings (suc c ∷ suc d ∷ bs) = prefix_first (suc c) (strings (suc d ∷ bs))

-- `*data == '\0'`
abbrev pub starts_empty : Bytes → Bool
starts_empty [] = true
starts_empty (b ∷ bs) = b == 0

-- A program that script_helper ran, with its messages.
abbrev pub script_end : List Bytes → Result ℕ → Ran
script_end argv (err e) = record {
  programs = argv ∷ [];
  code = pos e;
  said = codes "internal error" ∷ [];
}
script_end argv (ok (suc n)) = record {
  programs = argv ∷ [];
  code = pos (suc n);
  said = codes "internal error" ∷ [];
}
script_end argv (ok zero) = record { programs = argv ∷ []; code = pos 0; said = codes "done" ∷ [] }

abbrev pub quiet : List (List Bytes) → ℤ → Ran
quiet programs code = record { programs = programs; code = code; said = [] }

-- The code of a program that writes nothing: its status, or errno.
abbrev pub status : Result ℕ → ℤ
status (err e) = pos e
status (ok n) = pos n

abbrev pub firewall_reload : List Bytes
firewall_reload = codes "/system/bin/dumbos-firewall.sh" ∷ []

module _ (h : Host) where
  unfoldable pub script_helper : Bytes → Bytes → Bytes → ℕ → Ran
  unfolding strings
  script_helper argv0 argv1 data' size =
      let argv = argv0 ∷ argv1 ∷ strings (take (size - 1) data') in
      if size == 0
      then quiet [] (pos 0)
      else if starts_empty data' || leb size 1
      then quiet [] (pos einval)
      else script_end argv (h.execv argv)

  unfoldable pub firewall_helper : Bytes → Bytes → ℕ → Ran
  unfolding script_helper
  firewall_helper policy data' size =
      script_helper (codes "/system/bin/dumbos-firewallctl.sh") policy data' size

  unfoldable pub singbox_helper : Bytes → Bytes → ℕ → Ran
  unfolding script_helper
  singbox_helper verb data' size =
      script_helper (codes "/system/bin/sing-box-wrapper.sh") verb data' size

  abbrev pub run_one : List Bytes → Ran
  run_one argv = quiet (argv ∷ []) (status (h.execv argv))

  -- The second program runs when the first returned 0.
  abbrev pub and_then : List Bytes → Result ℕ → List Bytes → Ran
  and_then first (err e) second = quiet (first ∷ []) (pos e)
  and_then first (ok (suc n)) second = quiet (first ∷ []) (pos (suc n))
  and_then first (ok zero) second = quiet (first ∷ second ∷ []) (status (h.execv second))

  abbrev pub setting : Bytes → Bytes → List Bytes
  setting name value =
      codes "/system/bin/settings" ∷ codes "put" ∷ codes "global" ∷ name ∷ value ∷ []

  unfoldable pub set_adb_enabled : Bool → Ran
  set_adb_enabled true =
      let first = setting (codes "development_settings_enabled") (codes "1") in
      and_then first (h.execv first) (setting (codes "adb_enabled") (codes "1"))
  set_adb_enabled false =
      let first = setting (codes "adb_enabled") (codes "0") in
      and_then first (h.execv first) (setting (codes "development_settings_enabled") (codes "0"))

  unfoldable pub set_wifi_enabled : Bool → Ran
  set_wifi_enabled true = run_one (codes "/system/bin/start" ∷ codes "wificond" ∷ [])
  set_wifi_enabled false = run_one (codes "/system/bin/stop" ∷ codes "wificond" ∷ [])

  unfoldable pub set_oem_lock : Bool → Ran
  set_oem_lock lock = run_one (
      codes "/system/bin/service"
      ∷ codes "call"
      ∷ codes "oem_lock"
      ∷ codes "4"
      ∷ codes "i32"
      ∷ (if lock then codes "0" else codes "1")
      ∷ [])

  -- A missing file is as good as a deleted one.
  abbrev pub after_unlink : Result (Unit {0}) → Ran
  after_unlink (ok _) = run_one firewall_reload
  after_unlink (err e) = if e == enoent then run_one firewall_reload else quiet [] (pos e)

  unfoldable pub payload_cmd_firewall_flush : Ran
  payload_cmd_firewall_flush =
      after_unlink (h.unlink (codes "/data/local/tmp/dumb/dumbos-firewall.conf"))

  -- The commands by their actions; `rest` runs the three that copy or install files.
  unfoldable pub run_script : (Bytes → Action → Ran) → Action → Bytes → Ran
  unfolding firewall_helper singbox_helper set_adb_enabled set_wifi_enabled set_oem_lock
      payload_cmd_firewall_flush
  run_script rest install_this data' = rest data' install_this
  run_script rest files_export data' = rest data' files_export
  run_script rest files_import data' = rest data' files_import
  run_script rest install_path data' = quiet [] (pos enosys)
  run_script rest adb_enable data' = set_adb_enabled true
  run_script rest adb_disable data' = set_adb_enabled false
  run_script rest wifi_enable data' = set_wifi_enabled true
  run_script rest wifi_disable data' = set_wifi_enabled false
  run_script rest oem_unlock data' = set_oem_lock false
  run_script rest oem_lock data' = set_oem_lock true
  run_script rest firewall_add data' = firewall_helper (codes "allow") data' (length data')
  run_script rest firewall_remove data' = firewall_helper (codes "deny") data' (length data')
  run_script rest firewall_add_temp data' =
      firewall_helper (codes "allow-temp") data' (length data')
  run_script rest firewall_flush data' = payload_cmd_firewall_flush
  run_script rest singbox_add data' = singbox_helper (codes "add") data' (length data')
  run_script rest singbox_del data' = singbox_helper (codes "del") data' (length data')

-- The phone that handle_one_payload runs on, given its host as the earlier calls left it.
unfoldable pub script_phone : (List Call → Host) → (List Call → Bytes → Action → Ran) → Phone
unfolding run_script
script_phone host rest = record {
  perform = λ calls call.
      let r = run_script (host calls) (rest calls) call.action call.argument in (r.code, r.said);
}
