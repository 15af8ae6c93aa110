-- ===== src/Tests/Servers.antt =====
-- A server with the code "abc" of the sample payload and the user "bob".
use dumbos_dumbos.Base.{
  ◌-◌, take, ◌≡◌, refl, true, [], ◌∷◌, none, some, arith, codes, ok, length, streq, c_str,
}
use dumbos_dumbos.Base.Int.{pos, ◌+ℤ◌}
use dumbos_dumbos.Chars.{check_allowed_chars, strchr}
use dumbos_dumbos.Decimal.{parse_long_long}
use dumbos_dumbos.Ed25519.{
  ed25519_sign_hex, ed25519_verify_hex, hex_to_bytes, hex_loop, hex_char_value, bytes_to_hex,
  hex_chars,
}
use dumbos_dumbos.Payload.{to_bytes, of_bytes, base_size}
use dumbos_dumbos.Payload.Fields.{dp_validate_size, dp_get_data_size}
use dumbos_dumbos.Payload.Expire.{dp_get_expire, dp_get_expire_or_set, dp_is_expired}
use dumbos_dumbos.Payload.Sign.{dp_sign, dp_verify}
use dumbos_dumbos.RequestId.{request_id_verify}
use dumbos_dumbos.Files.{Files, lookup, insert}
use dumbos_dumbos.Server.{Request, Times}
use dumbos_dumbos.Server.Load.{dp_malloc_check_load, load_file, open_code, shared_path}
use dumbos_dumbos.Server.ReloadLaws.{dp_malloc_check_load_expires, dp_malloc_check_load-dp_verify}
use dumbos_dumbos.Server.Handler.{
  found, not_found, dumb_handler, check_request, verify_request, claim_request, arguments,
  user_pubkey_path,
}
use dumbos_dumbos.Server.HandlerLaws.{Visit, serve, dumb_handler_once}
use dumbos_dumbos.Server.Router.{Site, answers}
use dumbos_dumbos.Server.RouterLaws.{post, expected, post_lem}
use dumbos_dumbos.Daemon.{adb_enable, run_action}
use dumbos_dumbos.Daemon.Payloads.{
  act, find_command, command_table, command_string, handle_one_payload,
}
use dumbos_dumbos.Daemon.Delivery.{announced, dp_malloc_check_load-handle_one_payload}
use dumbos_dumbos.Tests.Phones.{obedient, idle}
use dumbos_dumbos.Tests.Toy.{toy, toy_hex, toy-IsEd25519, toy-IsKeyPair}
use dumbos_dumbos.Tests.Payloads.{sample, signed_sample, hex_of}

abbrev disk : Files
disk = (shared_path (codes "abc"), to_bytes sample) ∷ (user_pubkey_path (codes "bob"), toy_hex) ∷ []

abbrev noon : Times
noon = record { at_verify = pos 110; at_set = pos 110; at_compare = pos 110 }

abbrev evening : Times
evening = record { at_verify = pos 10000; at_set = pos 10000; at_compare = pos 10000 }

loaded :
    dp_malloc_check_load toy (codes "abc") (codes "bob") toy_hex noon disk
    ≡ (some (to_bytes signed_sample), insert (shared_path (codes "abc")) (to_bytes sample) disk)
unfolding dp_malloc_check_load load_file open_code check_allowed_chars strchr lookup insert streq
    to_bytes of_bytes dp_is_expired dp_get_expire_or_set dp_get_expire parse_long_long c_str dp_sign
    ed25519_sign_hex hex_to_bytes hex_loop hex_char_value bytes_to_hex hex_chars ◌+ℤ◌
loaded = refl

sent_expire : dp_get_expire (of_bytes (to_bytes signed_sample)) ≡ pos 9999
unfolding dp_get_expire parse_long_long c_str of_bytes to_bytes hex_chars
sent_expire = refl

dp_malloc_check_load_expires_example :
    dp_malloc_check_load toy
      (codes "abc")
      (codes "bob")
      toy_hex
      evening
      (insert (shared_path (codes "abc")) (to_bytes sample) disk)
    ≡ (none, insert (shared_path (codes "abc")) (to_bytes sample) disk)
dp_malloc_check_load_expires_example =
    dp_malloc_check_load_expires toy (codes "abc") (codes "bob") toy_hex noon evening disk
      (insert (shared_path (codes "abc")) (to_bytes sample) disk) (to_bytes signed_sample) 9999
      loaded sent_expire (omega arith) (omega arith)

sent_valid :
    dp_validate_size (of_bytes (to_bytes signed_sample)) (length (to_bytes signed_sample)) ≡ true
unfolding dp_validate_size dp_get_data_size of_bytes to_bytes hex_chars
sent_valid = refl

dp_malloc_check_load-dp_verify_example :
    (dp_verify toy (of_bytes (to_bytes signed_sample)) (length (to_bytes signed_sample)) toy_hex).0
    ≡ ok tt
dp_malloc_check_load-dp_verify_example =
    dp_malloc_check_load-dp_verify toy (codes "abc") (codes "bob") toy_hex toy_hex noon disk
      (insert (shared_path (codes "abc")) (to_bytes sample) disk) (to_bytes signed_sample)
      toy-IsEd25519 toy-IsKeyPair loaded sent_valid

-- The request of Tests/Requests.
abbrev request : Request
request = record {
  code = some (codes "abc");
  user = some (codes "bob");
  requestid = some (codes "r1");
  requestsig = some (hex_of 18);
  requesttime = some (codes "100");
}

abbrev visit : Visit
visit = record { times = noon; stamp = codes "noon"; request = request }

-- A request without arguments.
abbrev stray : Visit
stray = record visit { request = record request { user = none } }

answered :
    (dumb_handler toy toy_hex noon (codes "noon") request disk).0 ≡ found (to_bytes signed_sample)
unfolding dumb_handler arguments check_request verify_request claim_request request_id_verify
    ed25519_verify_hex dp_malloc_check_load load_file open_code check_allowed_chars strchr lookup
    insert streq to_bytes of_bytes dp_is_expired dp_get_expire_or_set dp_get_expire parse_long_long
    c_str dp_sign ed25519_sign_hex hex_to_bytes hex_loop hex_char_value bytes_to_hex hex_chars ◌+ℤ◌
answered = refl

dumb_handler_once_example :
    dumb_handler toy toy_hex noon
      (codes "noon")
      request
      (serve toy toy_hex (visit ∷ stray ∷ []) disk)
    ≡ (not_found, serve toy toy_hex (visit ∷ stray ∷ []) disk)
dumb_handler_once_example =
    dumb_handler_once toy toy_hex visit visit (stray ∷ []) disk (codes "bob") (codes "r1")
      (to_bytes signed_sample) refl refl refl refl answered

abbrev site : Site
site = record { openssl = toy; private_key = toy_hex; times = noon; stamp = codes "noon" }

post_lem_example :
    (post site (codes "/echo") request ((b'h', codes "el") ∷ (b'l', codes "o") ∷ []) disk).0
    ≡ answers (expected site (codes "/echo") request (codes "hello") disk)
post_lem_example =
    post_lem site (codes "/echo") request ((b'h', codes "el") ∷ (b'l', codes "o") ∷ []) disk

sent_named :
    find_command command_table (command_string (of_bytes (to_bytes signed_sample))) ≡ act adb_enable
unfolding of_bytes to_bytes hex_chars streq c_str
sent_named = refl

dp_malloc_check_load-handle_one_payload_example :
    handle_one_payload toy toy_hex obedient
      (pos 120)
      (pos 120)
      (of_bytes (to_bytes signed_sample))
      (length (to_bytes signed_sample) - base_size)
      idle
    ≡ some (
        run_action obedient adb_enable
          (take
            (length (to_bytes signed_sample) - base_size)
            (of_bytes (to_bytes signed_sample)).payload)
          (announced (command_string (of_bytes (to_bytes signed_sample))) idle))
dp_malloc_check_load-handle_one_payload_example =
    dp_malloc_check_load-handle_one_payload toy (codes "abc") (codes "bob") toy_hex toy_hex noon
      disk (insert (shared_path (codes "abc")) (to_bytes sample) disk) (to_bytes signed_sample)
      obedient (pos 120) (pos 120) 9999 adb_enable idle toy-IsEd25519 toy-IsKeyPair loaded
      sent_valid sent_expire refl sent_named
