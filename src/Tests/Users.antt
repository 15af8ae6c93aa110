-- ===== src/Tests/Users.antt =====
-- Witnesses and tests for the user data.
use dumbos_dumbos.Base.{◌≡◌, refl, [], ◌∷◌, ◌++◌, arith, Bytes, codes, some, ok, take, replicate}
use dumbos_dumbos.User.{
  UserData, user_magic, padded, user_bytes, dumbos_alloc_get_user, dumbos_alloc_new_user,
  dumbos_set_fancy_name,
}
use dumbos_dumbos.User.Layout.{
  IsUserData, dumbos_alloc_get_user-user_bytes, dumbos_alloc_get_user-IsUserData,
}
use dumbos_dumbos.User.Laws.{Holds, get_user-new_user}
use dumbos_dumbos.Files.{lookup}
use dumbos_dumbos.Tool.Main.{UserCalls, cmd_new_user}
use dumbos_dumbos.Tool.UserLaws.{cmd_new_user-get_user}

abbrev pub key : Bytes
key = replicate 64 b'0'

abbrev pub alice : UserData
alice = record {
  magic = user_magic;
  username = padded 64 (codes "alice");
  null_byte = 0;
  fancy_name = padded 127 (codes "Alice B.");
  fancy_null_byte = 0;
  priv_key_hex = padded 65 key;
}

get_user-new_user_example :
    (u : UserData) × (v : UserData) × (dumbos_alloc_new_user (codes "alice") key ≡ ok u)
    × (dumbos_set_fancy_name u (codes "Alice B.") ≡ ok v)
    × (dumbos_alloc_get_user (some (user_bytes v ++ 1 ∷ [])) ≡ ok v)
    × Holds v (codes "alice") key (codes "Alice B.")
get_user-new_user_example =
    get_user-new_user (codes "alice") key (codes "Alice B.") (1 ∷ []) (omega arith) (omega arith)
      (omega arith) refl (omega arith) (omega arith)

pub alice-IsUserData : IsUserData alice
alice-IsUserData = record {
  magic_right = refl;
  username_length = refl;
  username_ends = refl;
  fancy_name_length = refl;
  key = key;
  key_length = refl;
  key_ends = refl;
}

pub alice_read : dumbos_alloc_get_user (some (user_bytes alice)) ≡ ok alice
unfolding user_bytes
alice_read = dumbos_alloc_get_user-user_bytes alice [] alice-IsUserData

dumbos_alloc_get_user-IsUserData_example : IsUserData alice
dumbos_alloc_get_user-IsUserData_example =
    dumbos_alloc_get_user-IsUserData (some (user_bytes alice)) alice alice_read

abbrev works : UserCalls
works = record { mkdir = ok tt; open_pubkey = ok tt; open_blob = ok tt }

cmd_new_user-get_user_example :
    (u : UserData) × ((cmd_new_user works (codes "bob") key key []).0 ≡ 0)
    × (lookup (codes "bob/pubkey") (cmd_new_user works (codes "bob") key key []).1
        ≡ some (take 64 key))
    × (dumbos_alloc_get_user
          (lookup (codes "bob.blob") (cmd_new_user works (codes "bob") key key []).1)
        ≡ ok u)
    × Holds u (codes "bob") key (codes "bob")
cmd_new_user-get_user_example =
    cmd_new_user-get_user works (codes "bob") key key [] (omega arith) (omega arith) (omega arith)
      refl refl refl refl
