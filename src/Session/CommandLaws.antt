-- ===== src/Session/CommandLaws.antt =====
-- daemon/command.c: who can set the user of a phone, and what it is then called.
use dumbos_dumbos.Base.{
  ℕ, ◌≡◌, refl, ap, ap₂, ◌∙◌, sym, List, [], ◌∷◌, append-nil, Option, none, some, Bytes, codes,
  Result, ok, err, IsBytes, streq, take, length, ltb, ◌==◌, ==_iff, Bool-cases, inl, inr,
}
use dumbos_dumbos.Base.Int.{pos}
use dumbos_dumbos.Base.Errno.{enoent}
use dumbos_dumbos.Hex.{malloc_hex_to_buf, malloc_buf_to_hex}
use dumbos_dumbos.Hex.RoundTrip.{malloc_hex_to_buf-malloc_buf_to_hex}
use dumbos_dumbos.User.{
  UserData, user_bytes, dumbos_alloc_get_user, check_user, user_of_bytes, user_data_size,
  user_magic,
}
use dumbos_dumbos.User.Layout.{dumbos_alloc_get_user-user_bytes}
use dumbos_dumbos.User.Laws.{Holds}
use dumbos_dumbos.Daemon.Payloads.{Handled}
use dumbos_dumbos.Daemon.SecretCode.{secret_code}
use dumbos_dumbos.Session.Commands.{
  Did, Env, did, after_setprop, after_write, after_open, after_user, after_decode, cmd_setname,
  setprop, names_of, cmd_get_username, oem_locking, Builtin, cmd_ok, cmd_notok, cmd_code,
  cmd_username, cmd_oem_lock, cmd_show_version, cmd_set_name, cmd_upload, find_builtin,
  commands_list, run_builtin, do_command, net_of, handled,
}

-- Nothing was written, unless this holds.
abbrev WritesIf : Type 0 → Did → Type 0
WritesIf P d = (b : Bytes) → d.written ≡ some b → P

idle : {P : Type 0} (d : Did) → d.written ≡ none → WritesIf P d
idle d e b f = cc (e, f)

missing_file : (file : Option Bytes) → dumbos_alloc_get_user file ≡ err enoent → file ≡ none
unfolding dumbos_alloc_get_user check_user
missing_file none h = refl
missing_file (some content) h = elim (Bool-cases (ltb (length content) user_data_size)) [
  | inl small ↦ cc (rw small at h)
  | inr fits ↦
      elim (Bool-cases (streq (user_of_bytes (take user_data_size content)).magic user_magic)) [
        | inl e ↦ cc (rw (fits, e) at h)
        | inr e ↦ cc (rw (fits, e) at h)
      ]
]

module _ (env : Env) where
  -- There is no user.
  abbrev pub NoUser : Type 0
  NoUser = dumbos_alloc_get_user env.user_file ≡ err enoent

  after_user-WritesIf :
      (content : Bytes) (r : Result UserData)
      → dumbos_alloc_get_user env.user_file ≡ r
      → WritesIf NoUser (after_user env content r)
  after_user-WritesIf content (ok u) e b f = cc f
  after_user-WritesIf content (err x) e b f = elim (Bool-cases (x == enoent)) [
    | inl t ↦ e ∙ ap err ((==_iff x enoent).0 t)
    | inr t ↦ cc (rw t at f)
  ]

  cmd_setname-WritesIf : (args : List Bytes) → WritesIf NoUser (cmd_setname env args)
  unfolding cmd_setname
  cmd_setname-WritesIf [] b f = cc f
  cmd_setname-WritesIf (hex ∷ args) b f = decoded (malloc_hex_to_buf env.char_is_signed hex) b f
    where
      decoded : (r : Result Bytes) → WritesIf NoUser (after_decode env r)
      decoded (err e) b f = cc f
      decoded (ok content) b f =
          after_user-WritesIf content (dumbos_alloc_get_user env.user_file) refl b f

  names_of-Idle : (r : Result UserData) → (names_of r).written ≡ none
  names_of-Idle (err e) = refl
  names_of-Idle (ok u) = refl

  -- A phone that has a user keeps it: no command, whatever its arguments, writes new user data
  -- unless the file of the user data is missing. What the actions of a payload do is apart.
  pub do_command-NoUser :
      (argv : List Bytes) (b : Bytes)
      → (do_command env argv).written ≡ some b
      → env.user_file ≡ none
  unfolding do_command cmd_get_username oem_locking
  do_command-NoUser [] b f = cc f
  do_command-NoUser (name ∷ args) b f =
      missing_file env.user_file (builtin (find_builtin commands_list name) f)
    where
      handled_nothing : (r : Handled) → (handled r).written ≡ some b → NoUser
      handled_nothing none f = cc f
      handled_nothing (some (code, d)) f = cc f

      builtin : (c : Option Builtin) → (run_builtin env args c).written ≡ some b → NoUser
      builtin none f = cc f
      builtin (some cmd_ok) f = cc f
      builtin (some cmd_notok) f = cc f
      builtin (some cmd_code) f = handled_nothing (secret_code (net_of env) args _) f
      builtin (some cmd_username) f =
          idle (cmd_get_username env) (names_of-Idle (dumbos_alloc_get_user env.user_file)) b f
      builtin (some cmd_oem_lock) f = cc f
      builtin (some cmd_show_version) f = cc f
      builtin (some cmd_set_name) f = cmd_setname-WritesIf args b f
      builtin (some cmd_upload) f = cc f

set_name-done :
    (env : Env) (content : Bytes)
    → IsBytes content
    → env.user_file ≡ none
    → env.open_new ≡ ok tt
    → env.write_new ≡ ok tt
    → env.host.execv setprop ≡ ok 0
    → cmd_setname env (malloc_buf_to_hex content ∷ []) ≡ after_setprop content (ok 0)
unfolding cmd_setname dumbos_alloc_get_user
set_name-done env content bytes missing opens writes runs =
    ap (λ r. after_decode env r)
      (malloc_hex_to_buf-malloc_buf_to_hex env.char_is_signed content bytes).0
    ∙ ap (λ (f : Option Bytes). after_user env content (dumbos_alloc_get_user f)) missing
    ∙ ap (λ r. after_open env content r) opens
    ∙ ap (λ r. after_write env content r) writes
    ∙ ap (λ (r : Result ℕ). after_setprop content r) runs

get_name-Holds :
    (env : Env) (u : UserData) (user key fancy : Bytes)
    → Holds u user key fancy
    → env.user_file ≡ some (user_bytes u)
    → cmd_get_username env ≡ did (user ∷ fancy ∷ []) (pos 0)
unfolding cmd_get_username
get_name-Holds env u user key fancy h file =
    ap (λ (f : Option Bytes). names_of (dumbos_alloc_get_user f))
      (file ∙ ap (λ (b : Bytes). some b) (sym (append-nil (user_bytes u))))
    ∙ ap (λ (r : Result UserData). names_of r) (dumbos_alloc_get_user-user_bytes u [] h.well_formed)
    ∙ ap₂ (λ (a b : Bytes). did (a ∷ b ∷ []) (pos 0)) h.user_name h.display_name

-- The phone when init(8) has copied the new user data.
abbrev pub restarted : Env → Did → Env
restarted env d = record env { user_file = d.written }

-- The names of a user are set once and then told: on a phone without a user, on which the new
-- file can be written and setprop returns 0, set_name with the bytes of well-formed user data in
-- hexadecimal succeeds, and when init(8) has copied what it wrote, get_name tells the user name and
-- the name for display.
pub do_command-set_name :
    (env : Env) (u : UserData) (user key fancy : Bytes)
    → Holds u user key fancy
    → IsBytes (user_bytes u)
    → env.user_file ≡ none
    → env.open_new ≡ ok tt
    → env.write_new ≡ ok tt
    → env.host.execv setprop ≡ ok 0
    → let set = do_command env (codes "set_name" ∷ malloc_buf_to_hex (user_bytes u) ∷ []) in
      (set.said ≡ codes "done." ∷ [])
      × (set.result ≡ pos 0)
      × (do_command (restarted env set) (codes "get_name" ∷ []) ≡ did (user ∷ fancy ∷ []) (pos 0))
unfolding do_command streq
do_command-set_name env u user key fancy h bytes missing opens writes runs =
    let done = set_name-done env (user_bytes u) bytes missing opens writes runs in
    (
      ap (λ (d : Did). d.said) done,
      ap (λ (d : Did). d.result) done,
      ap (λ (d : Did). cmd_get_username (restarted env d)) done
          ∙ get_name-Holds (record env { user_file = some (user_bytes u) }) u user key fancy h refl,
    )
