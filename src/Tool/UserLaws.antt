-- ===== src/Tool/UserLaws.antt =====
-- server/src/dumb-main.c, cmd_new_user: the files of a new user.
use dumbos_dumbos.Base.{
  false, ◌≤◌, ◌≡◌, refl, ap, ◌∙◌, sym, [], ◌∷◌, ◌++◌, append-nil, Bytes, codes, length, take, some,
  ok, IsText, streq, ==_iff,
}
use dumbos_dumbos.Files.{Files, lookup, insert, lookup-insert, lookup-insert_self}
use dumbos_dumbos.User.{UserData, user_bytes, dumbos_alloc_get_user}
use dumbos_dumbos.User.Layout.{dumbos_alloc_get_user-user_bytes}
use dumbos_dumbos.User.Laws.{Holds, new_user-Holds}
use dumbos_dumbos.Tool.Main.{UserCalls, cmd_new_user}

streq-append : (s a b : Bytes) → streq (s ++ a) (s ++ b) ≡ streq a b
unfolding streq
streq-append [] a b = refl
streq-append (c ∷ s) a b = rw ((==_iff c c).1 refl) (streq-append s a b)

other_path : (name : Bytes) → streq (name ++ codes ".blob") (name ++ codes "/pubkey") ≡ false
unfolding streq
other_path name = streq-append name (codes ".blob") (codes "/pubkey")

-- A user that the tool makes, when its directory can be made, which it cannot for a user that is there,
-- and both files can be opened: the server has the public key for the user's name, and the phone reads
-- its user name and private key from the blob, and shows the user name.
pub cmd_new_user-get_user :
    (c : UserCalls) (name pubkey privkey : Bytes) (fs : Files)
    → IsText name
    → length name ≤ 63
    → IsText privkey
    → length privkey ≡ 64
    → c.mkdir ≡ ok tt
    → c.open_pubkey ≡ ok tt
    → c.open_blob ≡ ok tt
    → (u : UserData) × ((cmd_new_user c name pubkey privkey fs).0 ≡ 0)
      × (lookup (name ++ codes "/pubkey") (cmd_new_user c name pubkey privkey fs).1
          ≡ some (take 64 pubkey))
      × (dumbos_alloc_get_user
            (lookup (name ++ codes ".blob") (cmd_new_user c name pubkey privkey fs).1)
          ≡ ok u)
      × Holds u name privkey name
unfolding cmd_new_user
cmd_new_user-get_user c name pubkey privkey fs text short key_text key_long mkdir key_open
      blob_open =
    let (u, made, h) = new_user-Holds name privkey text short key_text key_long in
    let with_key = insert (name ++ codes "/pubkey") (take 64 pubkey) fs in
    (
      u,
      rw (made, mkdir, key_open, blob_open) refl,
      rw
          (
            made,
            mkdir,
            key_open,
            blob_open,
            lookup-insert (name ++ codes ".blob") (name ++ codes "/pubkey") (user_bytes u) with_key,
            other_path name,
          )
          (lookup-insert_self (name ++ codes "/pubkey") (take 64 pubkey) fs),
      rw
          (
            made,
            mkdir,
            key_open,
            blob_open,
            lookup-insert_self (name ++ codes ".blob") (user_bytes u) with_key,
          )
          (ap (λ (b : Bytes). dumbos_alloc_get_user (some b)) (sym (append-nil (user_bytes u)))
            ∙ dumbos_alloc_get_user-user_bytes u [] h.well_formed),
      h,
    )
