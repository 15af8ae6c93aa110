-- ===== src/Tests/Phones.antt =====
-- A phone on which every action succeeds, and the signed sample, which enables adb.
use dumbos_dumbos.Base.{ok, ◌++◌, ◌≡◌, refl, [], ◌∷◌, some, codes, streq, c_str}
use dumbos_dumbos.Base.Int.{pos}
use dumbos_dumbos.Decimal.{parse_long_long}
use dumbos_dumbos.Ed25519.{ed25519_verify_hex, hex_to_bytes, hex_loop, hex_char_value, hex_chars}
use dumbos_dumbos.Payload.{to_bytes}
use dumbos_dumbos.Payload.Fields.{dp_validate_size, dp_get_data_size}
use dumbos_dumbos.Payload.Expire.{dp_get_expire, dp_get_expire_or_set, dp_is_expired_compare}
use dumbos_dumbos.Payload.Sign.{dp_verify}
use dumbos_dumbos.Daemon.{adb_enable, firewall_add, Device, Phone}
use dumbos_dumbos.Daemon.Payloads.{run_command, handle_fuel, handle_one_payload}
use dumbos_dumbos.Daemon.Authority.{Grown, handle_one_payload-Grown}
use dumbos_dumbos.Daemon.Scripts.{
  Host, quiet, script_helper, firewall_helper, run_script, script_phone,
}
use dumbos_dumbos.Tests.Toy.{toy, toy_hex}
use dumbos_dumbos.Tests.Payloads.{signed_sample}

abbrev pub obedient : Phone
obedient = record { perform = λ _ _. (pos 0, codes "done" ∷ []) }

abbrev pub idle : Device
idle = record { messages = []; calls = [] }

sample_runs :
    handle_one_payload toy toy_hex obedient (pos 100) (pos 100) signed_sample 2 idle
    ≡ some (
      pos 0,
      record {
        messages = codes "loading..." ∷ codes "command is" ∷ codes "adb-enable" ∷ codes "done" ∷ [];
        calls = (record { action = adb_enable; argument = codes "hi" }) ∷ [];
      },
    )
unfolding handle_one_payload handle_fuel run_command dp_is_expired_compare dp_get_expire_or_set
    dp_get_expire parse_long_long dp_verify dp_validate_size dp_get_data_size ed25519_verify_hex
    hex_to_bytes hex_loop hex_char_value hex_chars to_bytes streq c_str
sample_runs = refl

handle_one_payload-Grown_example :
    Grown toy toy_hex obedient
      (pos 100)
      (pos 100)
      idle
      (handle_one_payload toy toy_hex obedient (pos 100) (pos 100) signed_sample 2 idle)
handle_one_payload-Grown_example =
    handle_one_payload-Grown toy toy_hex obedient (pos 100) (pos 100) signed_sample 2 idle

abbrev pub willing : Host
willing = record { execv = λ _. ok 0; unlink = λ _. ok tt }

script_phone_runs :
    (script_phone (λ _. willing) (λ _ _ _. quiet [] (pos 0))).perform []
      (record { action = firewall_add; argument = codes "org.a" ++ 0 ∷ [] })
    ≡ (pos 0, codes "done" ∷ [])
unfolding script_phone run_script firewall_helper script_helper
script_phone_runs = refl
