-- ===== src/User.antt =====
-- requestid.c: the user data of a phone, and the file that holds it.
-- The struct is its fields as byte arrays; a `char` of it is a byte. All fields are characters, so
-- the compiler leaves no room between them. Memory allocation is taken to succeed.
pub mod Laws
pub mod Layout
use dumbos_dumbos.Base.{
  ℕ, zero, suc, ◌-◌, ◌+◌, List, [], ◌∷◌, ◌++◌, Option, none, some, Bytes, codes, Result, ok, err,
  leb, ltb, ◌==◌, not, if◌then◌else◌, length, take, drop, replicate, streq, c_str,
}
use dumbos_dumbos.Base.Errno.{e2big, einval, eio, enoent}

abbrev pub username_maxlen : ℕ
username_maxlen = 64

abbrev pub fancy_name_maxlen : ℕ
fancy_name_maxlen = 127

-- ED25519_PRIVATE_KEY_HEX_SIZE.
abbrev pub key_hex_size : ℕ
key_hex_size = 65

-- Fifteen characters and the NUL that ends them.
abbrev pub user_magic : Bytes
user_magic = codes "dp2js9chakqkqe1" ++ 0 ∷ []

pub record UserData : Type 0 where
  pub magic : Bytes
  pub username : Bytes
  pub null_byte : ℕ
  pub fancy_name : Bytes
  pub fancy_null_byte : ℕ
  pub priv_key_hex : Bytes

-- sizeof(struct DUMBOS_USER_DATA): 16 + 64 + 1 + 127 + 1 + 65.
abbrev pub user_data_size : ℕ
user_data_size = 274

unfoldable pub dumbos_user_data_size : ℕ
dumbos_user_data_size = user_data_size

-- The bytes at the address of the struct.
unfoldable pub user_bytes : UserData → Bytes
user_bytes u =
    u.magic
    ++ (u.username ++ (u.null_byte ∷ (u.fancy_name ++ (u.fancy_null_byte ∷ u.priv_key_hex))))

abbrev byte_at : Bytes → ℕ
byte_at [] = 0
byte_at (b ∷ bs) = b

-- What fread(3) puts into the struct.
unfoldable pub user_of_bytes : Bytes → UserData
user_of_bytes b = record {
  magic = take 16 b;
  username = take 64 (drop 16 b);
  null_byte = byte_at (drop 64 (drop 16 b));
  fancy_name = take 127 (drop 1 (drop 64 (drop 16 b)));
  fancy_null_byte = byte_at (drop 127 (drop 1 (drop 64 (drop 16 b))));
  priv_key_hex = drop 1 (drop 127 (drop 1 (drop 64 (drop 16 b))));
}

-- The `char *` to a field reads on into the fields behind it until there is a NUL.
unfoldable pub username_of : UserData → Bytes
username_of u =
    c_str (u.username ++ (u.null_byte ∷ (u.fancy_name ++ (u.fancy_null_byte ∷ u.priv_key_hex))))

unfoldable pub fancy_name_of : UserData → Bytes
fancy_name_of u = c_str (u.fancy_name ++ (u.fancy_null_byte ∷ u.priv_key_hex))

unfoldable pub priv_key_of : UserData → Bytes
priv_key_of u = c_str u.priv_key_hex

-- The struct that was read: its magic, and the two NULs that it is given.
unfoldable pub check_user : UserData → Result UserData
check_user u =
    if streq u.magic user_magic
    then ok (record u {
      null_byte = 0;
      priv_key_hex = take (key_hex_size - 1) u.priv_key_hex ++ 0 ∷ [];
    })
    else err einval

-- `none` is a file that is not there.
unfoldable pub dumbos_alloc_get_user : Option Bytes → Result UserData
dumbos_alloc_get_user none = err enoent
dumbos_alloc_get_user (some content) =
    if ltb (length content) user_data_size
    then err eio
    else check_user (user_of_bytes (take user_data_size content))

-- snprintf of a string that fits, into zeroed memory.
abbrev pub padded : ℕ → Bytes → Bytes
padded size s = s ++ replicate (size - length s) 0

unfoldable pub dumbos_alloc_new_user : Bytes → Bytes → Result UserData
dumbos_alloc_new_user user priv_key_hex =
    if ltb (username_maxlen - 1) (length user)
    then err einval
    else if not (length priv_key_hex == key_hex_size - 1)
    then err einval
    else ok (record {
      magic = user_magic;
      username = padded username_maxlen user;
      null_byte = 0;
      fancy_name = replicate fancy_name_maxlen 0;
      fancy_null_byte = 0;
      priv_key_hex = padded key_hex_size priv_key_hex;
    })

unfoldable pub dumbos_get_fancy_name : UserData → Bytes
unfolding username_of fancy_name_of
dumbos_get_fancy_name u =
    if not (u.fancy_null_byte == 0)
    then username_of u
    else if length (fancy_name_of u) == 0
    then username_of u
    else fancy_name_of u

-- strcpy leaves the bytes behind the NUL.
unfoldable pub dumbos_set_fancy_name : UserData → Bytes → Result UserData
dumbos_set_fancy_name u name =
    if ltb username_maxlen (length name)
    then err e2big
    else ok (record u {
      fancy_name = name ++ (0 ∷ drop (length name + 1) u.fancy_name);
      fancy_null_byte = 0;
    })
