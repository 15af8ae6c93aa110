-- ===== src/Daemon.antt =====
-- daemon: what the daemon keeps while it handles a secret code.
pub mod Payloads
pub mod PayloadLaws
pub mod Authority
pub mod Scripts
pub mod ScriptLaws
pub mod Delivery
pub mod Install
pub mod SecretCode
pub mod Upload
pub mod Curl
pub mod Drive
pub mod Options
pub mod Folders
pub mod Start
pub mod Serve
pub mod Exec
pub mod Lockscreen
use dumbos_dumbos.Base.{ℕ, List, Bytes, ◌++◌, [], ◌∷◌}
use dumbos_dumbos.Base.Int.{ℤ}

-- The commands of payload_cmd.c that act on the phone; a composite is not among them, since it only
-- handles further payloads.
pub data Action : Type 0 where
  install_this install_path files_export files_import : Action
  adb_enable adb_disable wifi_enable wifi_disable oem_unlock oem_lock : Action
  firewall_add firewall_remove firewall_add_temp firewall_flush : Action
  singbox_add singbox_del : Action

-- An action with the data of its payload.
pub record Call : Type 0 where
  pub action : Action
  pub argument : Bytes

-- The strings written to the client, and the actions run so far.
pub record Device : Type 0 where
  pub messages : List Bytes
  pub calls : List Call

-- What the actions do: after the given calls, an action returns a code and writes messages.
pub record Phone : Type 0 where
  pub perform : List Call → Call → ℤ × List Bytes

abbrev pub write_message : Bytes → Device → Device
write_message s d = record d { messages = d.messages ++ s ∷ [] }

abbrev pub run_action : Phone → Action → Bytes → Device → ℤ × Device
run_action phone action argument d =
    let call : Call = record { action = action; argument = argument } in
    let (code, said) = phone.perform d.calls call in
    (code, record { messages = d.messages ++ said; calls = d.calls ++ call ∷ [] })
