-- ===== src/User/Layout.antt =====
-- struct DUMBOS_USER_DATA and the bytes at its address.
use dumbos_dumbos.Base.{
  ℕ, ◌≡◌, refl, ap, ap₂, ◌∙◌, sym, [], ◌∷◌, ◌++◌, arith, Bytes, length, take, drop, take-append,
  drop-append, length-append, length-take, length-drop, Option, none, some, ok, err, streq,
  streq_iff, ltb, Bool, true, false, if◌then◌else◌, subst, err-ne-ok, ok-injective, not_ltb,
  le→not_ltb,
}
use dumbos_dumbos.Base.Errno.{einval, eio}
use dumbos_dumbos.User.{
  UserData, user_magic, user_bytes, user_of_bytes, check_user, dumbos_alloc_get_user,
  user_data_size,
}

-- User data that may be saved: the arrays have their sizes, the magic is there, and a NUL stands
-- behind the name and at the end of the key.
pub record IsUserData (u : UserData) : Type 0 where
  pub magic_right : u.magic ≡ user_magic
  pub username_length : length u.username ≡ 64
  pub username_ends : u.null_byte ≡ 0
  pub fancy_name_length : length u.fancy_name ≡ 127
  pub key : Bytes
  pub key_length : length key ≡ 64
  pub key_ends : u.priv_key_hex ≡ key ++ 0 ∷ []

user_of_bytes-user_bytes : (u : UserData) → IsUserData u → user_of_bytes (user_bytes u) ≡ u
unfolding user_of_bytes user_bytes
user_of_bytes-user_bytes u h =
    rw
      (
        drop-append 16 u.magic
            (u.username ++ (u.null_byte ∷ (u.fancy_name ++ (u.fancy_null_byte ∷ u.priv_key_hex))))
            (ap (λ (b : Bytes). length b) (sym h.magic_right)),
        take-append 16 u.magic
            (u.username ++ (u.null_byte ∷ (u.fancy_name ++ (u.fancy_null_byte ∷ u.priv_key_hex))))
            (ap (λ (b : Bytes). length b) (sym h.magic_right)),
        drop-append 64 u.username
            (u.null_byte ∷ (u.fancy_name ++ (u.fancy_null_byte ∷ u.priv_key_hex)))
            (sym h.username_length),
        take-append 64 u.username
            (u.null_byte ∷ (u.fancy_name ++ (u.fancy_null_byte ∷ u.priv_key_hex)))
            (sym h.username_length),
        drop-append 127 u.fancy_name (u.fancy_null_byte ∷ u.priv_key_hex) (sym h.fancy_name_length),
        take-append 127 u.fancy_name (u.fancy_null_byte ∷ u.priv_key_hex) (sym h.fancy_name_length),
      )
      refl

length-user_bytes : (u : UserData) → IsUserData u → length (user_bytes u) ≡ user_data_size
unfolding user_bytes
length-user_bytes u h = omega (
  arith,
  ap (λ (b : Bytes). length b) h.magic_right,
  ap (λ (b : Bytes). length b) h.key_ends,
  h.username_length,
  h.fancy_name_length,
  h.key_length,
  length-append {0} h.key (0 ∷ []),
  length-append {0} u.magic
      (u.username ++ (u.null_byte ∷ (u.fancy_name ++ (u.fancy_null_byte ∷ u.priv_key_hex)))),
  length-append {0} u.username
      (u.null_byte ∷ (u.fancy_name ++ (u.fancy_null_byte ∷ u.priv_key_hex))),
  length-append {0} u.fancy_name (u.fancy_null_byte ∷ u.priv_key_hex),
)

check_user-IsUserData : (u : UserData) → IsUserData u → check_user u ≡ ok u
unfolding check_user
check_user-IsUserData u h = rw ((streq_iff u.magic user_magic).1 h.magic_right) (
    ap₂ (λ (n : ℕ) (k : Bytes). ok (record u { null_byte = n; priv_key_hex = k }))
      (sym h.username_ends) kept)
  where
    kept : take 64 u.priv_key_hex ++ 0 ∷ [] ≡ u.priv_key_hex
    kept =
        ap (λ (k : Bytes). take 64 k ++ 0 ∷ []) h.key_ends
        ∙ ap (λ (k : Bytes). k ++ 0 ∷ []) (take-append 64 h.key (0 ∷ []) (sym h.key_length))
        ∙ sym h.key_ends

-- User data is read back from a file that starts with its bytes.
pub dumbos_alloc_get_user-user_bytes :
    (u : UserData) (rest : Bytes)
    → IsUserData u
    → dumbos_alloc_get_user (some (user_bytes u ++ rest)) ≡ ok u
unfolding dumbos_alloc_get_user
dumbos_alloc_get_user-user_bytes u rest h =
    rw
      (
        le→not_ltb (length (user_bytes u ++ rest)) user_data_size
            (omega (arith, length-append {0} (user_bytes u) rest, length-user_bytes u h)),
        take-append user_data_size (user_bytes u) rest (sym (length-user_bytes u h)),
        user_of_bytes-user_bytes u h,
      )
      (check_user-IsUserData u h)

-- A file of the size of the struct.
user_of_bytes-IsUserData :
    (content : Bytes) (u : UserData)
    → length content ≡ user_data_size
    → check_user (user_of_bytes content) ≡ ok u
    → IsUserData u
unfolding check_user user_of_bytes
user_of_bytes-IsUserData content u h e = decided (streq (take 16 content) user_magic) refl e
  where
    d1 : length (drop 16 content) ≡ 258
    d1 = omega (arith, length-drop 16 content)

    d2 : length (drop 1 (drop 64 (drop 16 content))) ≡ 193
    d2 =
        omega
          (arith, length-drop 1 (drop 64 (drop 16 content)), length-drop 64 (drop 16 content), d1)

    d3 : length (drop 1 (drop 127 (drop 1 (drop 64 (drop 16 content))))) ≡ 65
    d3 = omega (
      arith,
      length-drop 1 (drop 127 (drop 1 (drop 64 (drop 16 content)))),
      length-drop 127 (drop 1 (drop 64 (drop 16 content))),
      d2,
    )

    kept : UserData
    kept =
        let raw = user_of_bytes content in
        record raw { null_byte = 0; priv_key_hex = take 64 raw.priv_key_hex ++ 0 ∷ [] }

    kept-IsUserData : streq (take 16 content) user_magic ≡ true → IsUserData kept
    kept-IsUserData f = record {
      magic_right = (streq_iff (take 16 content) user_magic).0 f;
      username_length = omega (arith, length-take 64 (drop 16 content), d1);
      username_ends = refl;
      fancy_name_length = omega (arith, length-take 127 (drop 1 (drop 64 (drop 16 content))), d2);
      key = take 64 (drop 1 (drop 127 (drop 1 (drop 64 (drop 16 content)))));
      key_length =
          omega
            (arith, length-take 64 (drop 1 (drop 127 (drop 1 (drop 64 (drop 16 content))))), d3);
      key_ends = refl;
    }

    decided :
        (b : Bool)
        → streq (take 16 content) user_magic ≡ b
        → (if b then ok kept else err einval) ≡ ok u
        → IsUserData u
    decided true f g = subst (λ (x : UserData). IsUserData x) (ok-injective g) (kept-IsUserData f)
    decided false f g = absurd (err-ne-ok g)

-- What is read from a file can be saved: it has the magic, and its strings end.
pub dumbos_alloc_get_user-IsUserData :
    (file : Option Bytes) (u : UserData) → dumbos_alloc_get_user file ≡ ok u → IsUserData u
unfolding dumbos_alloc_get_user
dumbos_alloc_get_user-IsUserData none u e = absurd (err-ne-ok e)
dumbos_alloc_get_user-IsUserData (some content) u e =
    decided (ltb (length content) user_data_size) refl e
  where
    decided :
        (b : Bool)
        → ltb (length content) user_data_size ≡ b
        → (if b then err eio else check_user (user_of_bytes (take user_data_size content))) ≡ ok u
        → IsUserData u
    decided true f g = absurd (err-ne-ok g)
    decided false f g =
        user_of_bytes-IsUserData (take user_data_size content) u
          (omega
            (arith, length-take user_data_size content, not_ltb (length content) user_data_size f))
          g
