-- ===== src/Tests/Commands.antt =====
-- Witnesses and tests for the daemon's commands.
use dumbos_dumbos.Base.{
  ◌≡◌, refl, [], ◌∷◌, arith, Bytes, codes, none, some, ok, IsBytes, true, streq, c_str, List,
}
use dumbos_dumbos.Base.Int.{pos}
use dumbos_dumbos.Hex.{malloc_buf_to_hex, malloc_hex_to_buf, hex_pairs, hexchartoval}
use dumbos_dumbos.User.{
  user_bytes, username_of, fancy_name_of, priv_key_of, dumbos_alloc_get_user, dumbos_get_fancy_name,
}
use dumbos_dumbos.User.Laws.{Holds}
use dumbos_dumbos.Session.Commands.{Env, Did, did, do_command, cmd_setname}
use dumbos_dumbos.Session.CommandLaws.{do_command-NoUser, do_command-set_name, restarted}
use dumbos_dumbos.Tests.Networks.{net, access}
use dumbos_dumbos.Tests.Users.{alice, alice-IsUserData, key}

-- A phone without a user, on which all calls succeed.
abbrev blank : Env
blank = record {
  user_file = none;
  open_new = ok tt;
  write_new = ok tt;
  host = record { execv = λ argv. ok 0; unlink = λ path. ok tt };
  char_is_signed = true;
  net = net;
  files = access;
}

alice-Holds : Holds alice (codes "alice") key (codes "Alice B.")
unfolding username_of priv_key_of dumbos_get_fancy_name fancy_name_of c_str
alice-Holds = record {
  well_formed = alice-IsUserData;
  user_name = refl;
  private_key = refl;
  display_name = refl;
}

alice-IsBytes : IsBytes (user_bytes alice)
unfolding user_bytes
alice-IsBytes = omega arith

abbrev setting : Did
setting = do_command blank (codes "set_name" ∷ malloc_buf_to_hex (user_bytes alice) ∷ [])

do_command-set_name_example :
    (setting.said ≡ codes "done." ∷ [])
    × (setting.result ≡ pos 0)
    × (do_command (restarted blank setting) (codes "get_name" ∷ [])
        ≡ did (codes "alice" ∷ codes "Alice B." ∷ []) (pos 0))
do_command-set_name_example =
    do_command-set_name blank alice (codes "alice") key (codes "Alice B.") alice-Holds alice-IsBytes
      refl refl refl refl

abbrev short : List Bytes
short = codes "set_name" ∷ codes "4142" ∷ []

short_written : (do_command blank short).written ≡ some (codes "AB")
unfolding do_command cmd_setname dumbos_alloc_get_user malloc_hex_to_buf streq hex_pairs
    hexchartoval
short_written = refl

do_command-NoUser_example : blank.user_file ≡ none
do_command-NoUser_example = do_command-NoUser blank short (codes "AB") short_written
