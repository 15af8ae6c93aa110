-- ===== src/User/Laws.antt =====
-- The user data of a phone from its set-up to its use.
use dumbos_dumbos.Base.{
  ℕ, zero, suc, ◌+◌, ◌-◌, ◌≤◌, ◌<◌, ◌≡◌, refl, ap, ◌∙◌, sym, [], ◌∷◌, ◌++◌, arith, Bytes, length,
  drop, append_assoc, length-append, length-drop, length-replicate, replicate, some, ok, ◌==◌,
  ==_iff, if◌then◌else◌, IsText, c_str, c_str-terminated, le→not_ltb,
}
use dumbos_dumbos.User.{
  UserData, user_magic, user_bytes, padded, username_of, fancy_name_of, priv_key_of,
  dumbos_alloc_get_user, dumbos_alloc_new_user, dumbos_get_fancy_name, dumbos_set_fancy_name,
}
use dumbos_dumbos.User.Layout.{IsUserData, dumbos_alloc_get_user-user_bytes}

-- The strings that the user data holds.
pub record Holds (u : UserData) (user key fancy : Bytes) : Type 0 where
  pub well_formed : IsUserData u
  pub user_name : username_of u ≡ user
  pub private_key : priv_key_of u ≡ key
  pub display_name : dumbos_get_fancy_name u ≡ fancy

c_str-padded :
    (size : ℕ) (s rest : Bytes) → IsText s → length s < size → c_str (padded size s ++ rest) ≡ s
c_str-padded size s rest text fits = padded_by (size - length s) (omega arith)
  where
    padded_by : (n : ℕ) → 0 < n → c_str ((s ++ replicate n 0) ++ rest) ≡ s
    padded_by zero h = absurd (omega (arith, h))
    padded_by (suc n) h =
        ap (λ (b : Bytes). c_str b) (append_assoc s (0 ∷ replicate n 0) rest)
        ∙ c_str-terminated s (replicate n 0 ++ rest) text

-- What stands behind a NUL is not read.
c_str-ends : (s x y : Bytes) → c_str (s ++ 0 ∷ x) ≡ c_str (s ++ 0 ∷ y)
unfolding c_str
c_str-ends [] x y = refl
c_str-ends (zero ∷ s) x y = refl
c_str-ends (suc b ∷ s) x y = ap (λ (l : Bytes). suc b ∷ l) (c_str-ends s x y)

length-padded : (size : ℕ) (s : Bytes) → length s ≤ size → length (padded size s) ≡ size
length-padded size s h = omega (
  arith,
  length-append {0} s (replicate (size - length s) 0),
  length-replicate {A = ℕ} (size - length s) 0,
)

-- A new user has no name for display: the user name stands in.
pub new_user-Holds :
    (user key : Bytes)
    → IsText user
    → length user ≤ 63
    → IsText key
    → length key ≡ 64
    → (u : UserData) × (dumbos_alloc_new_user user key ≡ ok u) × Holds u user key user
unfolding dumbos_alloc_new_user username_of priv_key_of dumbos_get_fancy_name fancy_name_of c_str
new_user-Holds user key text short key_text key_long = (
  u,
  made,
  record {
    well_formed = record {
      magic_right = refl;
      username_length = length-padded 64 user (omega arith);
      username_ends = refl;
      fancy_name_length = refl;
      key = key;
      key_length = key_long;
      key_ends = rw key_long refl;
    };
    user_name = named;
    private_key = rw key_long (c_str-terminated key [] key_text);
    display_name = named;
  },
)
  where
    u : UserData
    u = record {
      magic = user_magic;
      username = padded 64 user;
      null_byte = 0;
      fancy_name = replicate 127 0;
      fancy_null_byte = 0;
      priv_key_hex = padded 65 key;
    }

    made : dumbos_alloc_new_user user key ≡ ok u
    made = rw (le→not_ltb 63 (length user) short, (==_iff (length key) 64).1 key_long) refl

    named : username_of u ≡ user
    named = c_str-padded 64 user _ text (omega arith)

module _ (u : UserData) (user key old name : Bytes) where
  -- An empty name for display takes it back.
  pub set_fancy_name-Holds :
      Holds u user key old
      → IsText name
      → length name ≤ 64
      → (v : UserData) × (dumbos_set_fancy_name u name ≡ ok v)
        × Holds v user key (if length name == 0 then user else name)
  unfolding dumbos_set_fancy_name username_of priv_key_of dumbos_get_fancy_name fancy_name_of
  set_fancy_name-Holds h text short = (
    v,
    rw (le→not_ltb 64 (length name) short) refl,
    record {
      well_formed = record {
        magic_right = h.well_formed.magic_right;
        username_length = h.well_formed.username_length;
        username_ends = h.well_formed.username_ends;
        fancy_name_length = kept;
        key = h.well_formed.key;
        key_length = h.well_formed.key_length;
        key_ends = h.well_formed.key_ends;
      };
      user_name = same_name;
      private_key = h.private_key;
      display_name = rw (shown, same_name) refl;
    },
  )
    where
      new_fancy : Bytes
      new_fancy = name ++ (0 ∷ drop (length name + 1) u.fancy_name)

      v : UserData
      v = record u { fancy_name = new_fancy; fancy_null_byte = 0 }

      kept : length new_fancy ≡ 127
      kept = omega (
        arith,
        h.well_formed.fancy_name_length,
        length-append {0} name (0 ∷ drop (length name + 1) u.fancy_name),
        length-drop (length name + 1) u.fancy_name,
      )

      shown : fancy_name_of v ≡ name
      shown =
          ap (λ (b : Bytes). c_str b)
            (append_assoc name (0 ∷ drop (length name + 1) u.fancy_name) (0 ∷ u.priv_key_hex))
          ∙ c_str-terminated name (drop (length name + 1) u.fancy_name ++ (0 ∷ u.priv_key_hex)) text

      same_name : username_of v ≡ user
      same_name =
          ap (λ (n : ℕ). c_str (u.username ++ n ∷ (new_fancy ++ (0 ∷ u.priv_key_hex))))
            h.well_formed.username_ends
          ∙ c_str-ends u.username (new_fancy ++ (0 ∷ u.priv_key_hex))
              (u.fancy_name ++ (u.fancy_null_byte ∷ u.priv_key_hex))
          ∙ ap
              (λ (n : ℕ).
                c_str (u.username ++ n ∷ (u.fancy_name ++ (u.fancy_null_byte ∷ u.priv_key_hex))))
              (sym h.well_formed.username_ends)
          ∙ h.user_name

abbrev pub Sets : Bytes → Bytes → Bytes → Bytes → Type 0
Sets user key name rest =
    (u : UserData) × (v : UserData) × (dumbos_alloc_new_user user key ≡ ok u)
    × (dumbos_set_fancy_name u name ≡ ok v)
    × (dumbos_alloc_get_user (some (user_bytes v ++ rest)) ≡ ok v)
    × Holds v user key (if length name == 0 then user else name)

-- A user that is set up, given a name for display and saved is read back with the same strings: for
-- display the given name, or the user name where it is empty.
pub get_user-new_user :
    (user key name rest : Bytes)
    → IsText user
    → length user ≤ 63
    → IsText key
    → length key ≡ 64
    → IsText name
    → length name ≤ 64
    → Sets user key name rest
get_user-new_user user key name rest text short key_text key_long name_text name_short =
    let (u, made, hu) = new_user-Holds user key text short key_text key_long in
    let (v, named, hv) = set_fancy_name-Holds u user key user name hu name_text name_short in
    (u, v, made, named, dumbos_alloc_get_user-user_bytes v rest hv.well_formed, hv)
