-- ===== src/Tests/Tools.antt =====
-- Witnesses and tests for the command line tool.
use dumbos_dumbos.Base.{
  ℕ, ◌≡◌, refl, List, [], ◌∷◌, ◌++◌, ◌+◌, arith, Bytes, codes, none, some, err, length, replicate,
  streq, streq_iff, ok, ◌≢◌,
}
use dumbos_dumbos.Base.Errno.{einval}
use dumbos_dumbos.Base.Int.{pos}
use dumbos_dumbos.Files.{Files, lookup, insert}
use dumbos_dumbos.Stream.{htons}
use dumbos_dumbos.Payload.{Payload, to_bytes, of_bytes}
use dumbos_dumbos.Payload.Sign.{dp_verify}
use dumbos_dumbos.Daemon.{Device, write_message}
use dumbos_dumbos.Daemon.Payloads.{Handled, payload_cmd_composite}
use dumbos_dumbos.Tool.{dp_malloc_load}
use dumbos_dumbos.Tool.Sets.{pack, cmd_command_set}
use dumbos_dumbos.Tool.Main.{new_payload}
use dumbos_dumbos.Tool.Refused.{Edit, set_cmd, run_edits, run_edits-dp_verify}
use dumbos_dumbos.Tool.Command.{Env, code_path, dumb_main}
use dumbos_dumbos.Tool.CommandLaws.{dumb_main-Outside}
use dumbos_dumbos.Tool.PackLaws.{payload_cmd_composite-pack, AreFound}
use dumbos_dumbos.Tests.Toy.{toy, toy_hex}
use dumbos_dumbos.Tests.Payloads.{sample}

abbrev tmp : Bytes
tmp = codes "code-x"

abbrev edits : List Edit
edits = set_cmd (codes "fw-allow" ∷ codes "org.app" ∷ []) ∷ []

-- The bytes of a payload with the command fw-allow and data, but no size.
abbrev built : Bytes
built =
    codes "signature here (dont touch)"
    ++ (replicate 101 0
        ++ (10 ∷ codes "expire here"
            ++ (replicate 4 0
                ++ (10 ∷ codes "fw-allow"
                    ++ (0 ∷ replicate 6 0
                        ++ (10 ∷ replicate 7 0 ++ (codes "org.app" ++ 0 ∷ [])))))))

built_it : lookup tmp (run_edits toy tmp edits (new_payload tmp (0 ∷ 0 ∷ 0 ∷ []) []).1) ≡ some built
unfolding run_edits new_payload lookup cmd_command_set streq dp_malloc_load insert to_bytes of_bytes
built_it = refl

missing : lookup tmp [] ≡ none
unfolding lookup
missing = refl

run_edits-dp_verify_example : (dp_verify toy (of_bytes built) (length built) toy_hex).0 ≡ err einval
run_edits-dp_verify_example =
    run_edits-dp_verify toy tmp (0 ∷ 0 ∷ 0 ∷ []) toy_hex built edits [] refl missing built_it
      (omega arith)

-- A file that holds the sample payload.
abbrev disk : Files
disk = insert tmp (to_bytes sample) []

sized_sample : length (to_bytes sample) ≡ 170
unfolding to_bytes
sized_sample = refl

-- Two files of zeros.
abbrev two_files : Files
two_files = (codes "a", replicate 168 0) ∷ (codes "b", replicate 170 0) ∷ []

abbrev both : List Bytes
both = codes "a" ∷ codes "b" ∷ []

abbrev contents : List Bytes
contents = replicate 168 0 ∷ replicate 170 0 ∷ []

two_found : AreFound two_files both contents
unfolding lookup streq
two_found = (refl, omega arith, omega arith, (refl, omega arith, omega arith, tt))

-- A handler that accepts everything and counts.
abbrev counting : Payload → ℕ → Device → Handled
counting p n d = some (pos 0, write_message (n ∷ []) d)

abbrev idle : Device
idle = record { messages = []; calls = [] }

payload_cmd_composite-pack_example :
    ((pack both two_files).0 ≡ 0)
    × (payload_cmd_composite counting
          (htons 2 ++ (pack both two_files).1)
          (2 + length (pack both two_files).1)
          idle
        ≡ some (pos 0, record { messages = (0 ∷ []) ∷ (2 ∷ []) ∷ []; calls = [] }))
payload_cmd_composite-pack_example =
    payload_cmd_composite-pack counting two_files both contents idle two_found (omega arith)

abbrev env : Env
env = record {
  openssl = toy;
  padding = 0 ∷ 0 ∷ 0 ∷ [];
  user_calls = record { mkdir = ok tt; open_pubkey = ok tt; open_blob = ok tt };
  keypair = ok tt;
  publickey = toy_hex;
  privatekey = toy_hex;
}

abbrev two_codes : Files
two_codes = insert (codes "code-y") (to_bytes sample) disk

abbrev set_it : List Bytes
set_it = codes "tool" ∷ codes "x" ∷ codes "set-cmd" ∷ codes "fw-flush" ∷ []

not_y : code_path (codes "x") ≢ codes "code-y"
unfolding streq
not_y h = cc ((streq_iff (codes "code-x") (codes "code-y")).1 h)

ran : (dumb_main env set_it two_codes).0 ≡ 0
unfolding dumb_main cmd_command_set streq dp_malloc_load insert lookup to_bytes of_bytes
ran = refl

dumb_main-Outside_example :
    lookup (codes "code-y") (dumb_main env set_it two_codes).1 ≡ lookup (codes "code-y") two_codes
unfolding streq
dumb_main-Outside_example =
    dumb_main-Outside env (codes "tool") (codes "x") (codes "set-cmd") (codes "code-y")
      (codes "fw-flush" ∷ []) two_codes (not_y, tt)
