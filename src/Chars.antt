-- ===== src/Chars.antt =====
-- common.c, check_allowed_chars, and the whitelists of dumb.h and requestid.h.
use dumbos_dumbos.Base.{
  ℕ, ◌≡◌, ◌≢◌, refl, Bool, true, false, [], ◌∷◌, arith, Bytes, ◌==◌, if◌then◌else◌, All, codes,
  Bool-cases, ◌↔◌, ◌⊎◌, inl, inr, ==_iff,
}

-- `strchr(s, c) != NULL` for a byte `c` that is not NUL.
unfoldable pub strchr : Bytes → ℕ → Bool
strchr [] c = false
strchr (b ∷ bs) c = if b == c then true else strchr bs c

unfoldable pub check_allowed_chars : Bytes → Bytes → Bool
check_allowed_chars [] whitelist = true
check_allowed_chars (c ∷ s) whitelist =
    if strchr whitelist c then check_allowed_chars s whitelist else false

abbrev pub secret_code_allowed_chars : Bytes
secret_code_allowed_chars = codes "qwertyuiopasdfghjklzxcvbnm0123456789-_"

abbrev pub requestid_allowed_chars : Bytes
requestid_allowed_chars = codes "qwertyuiopasdfghjklzxcvbnmQWERTYUIOPASDFGHJKLZXCVBNM1234567890"

abbrev pub dumbos_user_allowed_chars : Bytes
dumbos_user_allowed_chars = codes "qwertyuiopasdfghjklzxcvbnmQWERTYUIOPASDFGHJKLZXCVBNM-_1234567890"

unfoldable pub dumb_code_verify_chars : Bytes → Bool
dumb_code_verify_chars code = check_allowed_chars code secret_code_allowed_chars

unfoldable pub request_id_verify_chars : Bytes → Bool
request_id_verify_chars request = check_allowed_chars request requestid_allowed_chars

unfoldable pub dumbos_user_verify_chars : Bytes → Bool
dumbos_user_verify_chars user = check_allowed_chars user dumbos_user_allowed_chars

-- The byte is one of the list.
abbrev pub OneOf : Bytes → ℕ → Type 0
OneOf [] c = ⊥
OneOf (b ∷ bs) c = (b ≡ c) ⊎ OneOf bs c

strchr_iff : (s : Bytes) (c : ℕ) → (strchr s c ≡ true) ↔ OneOf s c
unfolding strchr
strchr_iff [] c = (λ h. cc h, λ h. absurd h)
strchr_iff (b ∷ bs) c = elim (Bool-cases (b == c)) [
  | inl e ↦ rw e (λ _. inl ((==_iff b c).0 e), λ _. refl)
  | inr e ↦ rw e (λ h. inr ((strchr_iff bs c).0 h), other e (strchr_iff bs c).1)
]
  where
    other :
        (b == c) ≡ false → (OneOf bs c → strchr bs c ≡ true) → OneOf (b ∷ bs) c → strchr bs c ≡ true
    other e later (inl same) = ground arith
    other e later (inr rest) = later rest

-- A string passes the check exactly when each of its bytes is one of the whitelist's.
pub check_allowed_chars_iff :
    (s whitelist : Bytes) → (check_allowed_chars s whitelist ≡ true) ↔ All (OneOf whitelist) s
unfolding check_allowed_chars
check_allowed_chars_iff [] whitelist = (λ _. tt, λ _. refl)
check_allowed_chars_iff (c ∷ s) whitelist = elim (Bool-cases (strchr whitelist c)) [
  | inl e ↦ rw e (
    λ h. ((strchr_iff whitelist c).0 e, (check_allowed_chars_iff s whitelist).0 h),
    λ h. (check_allowed_chars_iff s whitelist).1 h.1,
  )
  | inr e ↦ rw e (λ h. cc h, λ h. cc (e, (strchr_iff whitelist c).1 h.0))
]

-- A byte that the whitelist lacks is in no string that passes.
check_allowed_chars-ne :
    (s whitelist : Bytes) (bad : ℕ)
    → strchr whitelist bad ≡ false
    → check_allowed_chars s whitelist ≡ true
    → All (λ c. c ≢ bad) s
unfolding check_allowed_chars
check_allowed_chars-ne [] whitelist bad lacks h = tt
check_allowed_chars-ne (c ∷ s) whitelist bad lacks h = elim (Bool-cases (strchr whitelist c)) [
  | inl e ↦ (λ same. cc (e, lacks, same), check_allowed_chars-ne s whitelist bad lacks (rw e at h))
  | inr e ↦ absurd (not_passed (rw e at h))
]
  where
    not_passed : false ≡ true → ⊥
    not_passed x = cc x

-- What can leave a directory or end a path early: a slash, a dot, NUL.
abbrev pub IsPathSafe : Bytes → Type 0
IsPathSafe s = All (λ c. c ≢ b'/') s × All (λ c. c ≢ b'.') s × All (λ c. c ≢ 0) s

-- A secret code, a request id and a user name that pass their checks hold no slash, no dot and no
-- NUL, so a path built from them stays in its directory.
pub verify_chars-IsPathSafe :
    (s : Bytes)
    → (dumb_code_verify_chars s ≡ true → IsPathSafe s)
      × (request_id_verify_chars s ≡ true → IsPathSafe s)
      × (dumbos_user_verify_chars s ≡ true → IsPathSafe s)
unfolding dumb_code_verify_chars request_id_verify_chars dumbos_user_verify_chars strchr
verify_chars-IsPathSafe s = (
  λ h. (
    check_allowed_chars-ne s secret_code_allowed_chars b'/' refl h,
    check_allowed_chars-ne s secret_code_allowed_chars b'.' refl h,
    check_allowed_chars-ne s secret_code_allowed_chars 0 refl h,
  ),
  λ h. (
    check_allowed_chars-ne s requestid_allowed_chars b'/' refl h,
    check_allowed_chars-ne s requestid_allowed_chars b'.' refl h,
    check_allowed_chars-ne s requestid_allowed_chars 0 refl h,
  ),
  λ h. (
    check_allowed_chars-ne s dumbos_user_allowed_chars b'/' refl h,
    check_allowed_chars-ne s dumbos_user_allowed_chars b'.' refl h,
    check_allowed_chars-ne s dumbos_user_allowed_chars 0 refl h,
  ),
)
