-- ===== src/Daemon/Lockscreen.antt =====
-- daemon/lockscreentext.c: the name of the user on the lock screen, in the database of Android's lock
-- settings. SQLite is an interface: its calls, and what they document of transactions.
pub mod Replaced
pub mod Laws
use dumbos_dumbos.Base.{
  ℕ, ◌≡◌, ◌≢◌, Bool, true, ◌&&◌, List, [], ◌∷◌, ◌++◌, Option, none, some, Bytes, codes, Result, ok,
  err, ◌==◌, if◌then◌else◌, streq,
}
use dumbos_dumbos.Base.Errno.{eio, eownerdead}
use dumbos_dumbos.User.{UserData, dumbos_alloc_get_user, dumbos_get_fancy_name}

-- The values of the rows that have a name and a user.
abbrev pub Rows : Type 0
Rows = Bytes → ℕ → List Bytes

-- The calls on a database. `saved` is what every other connection sees, `working` what this one does,
-- and `is_open` tells whether a transaction is open. A step takes the values that are bound.
pub record Sqlite : Type 1 where
  pub State : Type 0
  pub saved : State → Rows
  pub working : State → Rows
  pub is_open : State → Bool
  pub open_v2 : State → ℕ × State
  pub begin_immediate : State → ℕ × State
  pub prepare : Bytes → State → ℕ × State
  pub step_delete : Bytes → ℕ → State → ℕ × State
  pub step_insert : Bytes → ℕ → Bytes → State → ℕ × State
  pub commit : State → ℕ × State
  pub rollback : State → ℕ × State
  pub close : State → State

-- SQLITE_DONE; SQLITE_OK is 0.
abbrev pub sqlite_done : ℕ
sqlite_done = 101

abbrev pub is_row : Bytes → ℕ → Bytes → ℕ → Bool
is_row name user n u = streq name n && (user == u)

abbrev pub deleted : Bytes → ℕ → Rows → Rows
deleted name user rows n u = if is_row name user n u then [] else rows n u

abbrev pub inserted : Bytes → ℕ → Bytes → Rows → Rows
inserted name user value rows n u =
    if is_row name user n u then rows n u ++ value ∷ [] else rows n u

-- What SQLite documents: within a transaction a step changes what the connection sees only, and the
-- transaction takes effect as a whole, when COMMIT succeeds. A step never ends with SQLITE_OK.
pub record IsTransactional (db : Sqlite) : Type 0 where
  pub saved-open_v2 : (s : db.State) → db.saved (db.open_v2 s).1 ≡ db.saved s
  pub saved-begin : (s : db.State) → db.saved (db.begin_immediate s).1 ≡ db.saved s
  pub begins :
      (s : db.State)
      → (db.begin_immediate s).0 ≡ 0
      → (db.is_open (db.begin_immediate s).1 ≡ true)
        × (db.working (db.begin_immediate s).1 ≡ db.saved s)
  pub saved-prepare : (sql : Bytes) (s : db.State) → db.saved (db.prepare sql s).1 ≡ db.saved s
  pub prepares :
      (sql : Bytes) (s : db.State)
      → (db.prepare sql s).0 ≡ 0
      → (db.is_open (db.prepare sql s).1 ≡ db.is_open s)
        × (db.working (db.prepare sql s).1 ≡ db.working s)
  pub saved-step_delete :
      (name : Bytes) (user : ℕ) (s : db.State)
      → db.is_open s ≡ true
      → db.saved (db.step_delete name user s).1 ≡ db.saved s
  pub deletes :
      (name : Bytes) (user : ℕ) (s : db.State)
      → db.is_open s ≡ true
      → (db.step_delete name user s).0 ≡ sqlite_done
      → (db.is_open (db.step_delete name user s).1 ≡ true)
        × (db.working (db.step_delete name user s).1 ≡ deleted name user (db.working s))
  pub saved-step_insert :
      (name : Bytes) (user : ℕ) (value : Bytes) (s : db.State)
      → db.is_open s ≡ true
      → db.saved (db.step_insert name user value s).1 ≡ db.saved s
  pub inserts :
      (name : Bytes) (user : ℕ) (value : Bytes) (s : db.State)
      → db.is_open s ≡ true
      → (db.step_insert name user value s).0 ≡ sqlite_done
      → (db.is_open (db.step_insert name user value s).1 ≡ true)
        × (db.working (db.step_insert name user value s).1
            ≡ inserted name user value (db.working s))
  pub step_delete_code :
      (name : Bytes) (user : ℕ) (s : db.State) → (db.step_delete name user s).0 ≢ 0
  pub step_insert_code :
      (name : Bytes) (user : ℕ) (value : Bytes) (s : db.State)
      → (db.step_insert name user value s).0 ≢ 0
  pub commits :
      (s : db.State)
      → db.is_open s ≡ true
      → (db.commit s).0 ≡ 0
      → db.saved (db.commit s).1 ≡ db.working s
  pub not_commits : (s : db.State) → (db.commit s).0 ≢ 0 → db.saved (db.commit s).1 ≡ db.saved s
  pub saved-rollback : (s : db.State) → db.saved (db.rollback s).1 ≡ db.saved s
  pub saved-close : (s : db.State) → db.saved (db.close s) ≡ db.saved s

abbrev pub delete_sql : Bytes
delete_sql = codes "DELETE FROM locksettings WHERE name = ? AND user = ?"

abbrev pub insert_sql : Bytes
insert_sql = codes "INSERT INTO locksettings(name, user, value) VALUES (?, ?, ?)"

module _ (db : Sqlite) where
  -- The next call, if the code is the one that is wanted; otherwise the code is returned.
  abbrev pub expects : ℕ → ℕ × db.State → (db.State → ℕ × db.State) → ℕ × db.State
  expects wanted (rc, s) next = if rc == wanted then next s else (rc, s)

  -- replace_locksetting, from its last call to its first.
  abbrev pub insert_row : Bytes → ℕ → Bytes → db.State → ℕ × db.State
  insert_row name user value s =
      expects sqlite_done (db.step_insert name user value s) (λ s'. (0, s'))

  abbrev pub prepare_insert : Bytes → ℕ → Bytes → db.State → ℕ × db.State
  prepare_insert name user value s =
      expects 0 (db.prepare insert_sql s) (insert_row name user value)

  abbrev pub delete_row : Bytes → ℕ → Bytes → db.State → ℕ × db.State
  delete_row name user value s =
      expects sqlite_done (db.step_delete name user s) (prepare_insert name user value)

  unfoldable pub replace_locksetting : Bytes → ℕ → Bytes → db.State → ℕ × db.State
  replace_locksetting name user value s =
      expects 0 (db.prepare delete_sql s) (delete_row name user value)

  -- `rollback:`
  abbrev pub rolls_back : ℕ × db.State → (db.State → ℕ × db.State) → ℕ × db.State
  rolls_back (rc, s) next = if rc == 0 then next s else (rc, (db.rollback s).1)

  abbrev pub replace_second : db.State → ℕ × db.State
  replace_second s =
      rolls_back (replace_locksetting (codes "lock_screen_owner_info_enabled") 0 (codes "1") s)
        db.commit

  -- Between BEGIN and `out:`.
  unfoldable pub transaction : Bytes → db.State → ℕ × db.State
  unfolding replace_locksetting
  transaction text s =
      rolls_back (replace_locksetting (codes "lock_screen_owner_info") 0 text s) replace_second

  abbrev pub opened : Bytes → db.State → ℕ × db.State
  opened text s = expects 0 (db.begin_immediate s) (transaction text)

  -- `out:`
  abbrev pub closes : ℕ × db.State → ℕ × db.State
  closes (rc, s) = (rc, db.close s)

  unfoldable pub set_lock_screen_owner_info : Bytes → db.State → ℕ × db.State
  unfolding transaction
  set_lock_screen_owner_info text s = closes (expects 0 (db.open_v2 s) (opened text))

  abbrev pub was_set : ℕ × db.State → Result (Unit {0}) × db.State
  was_set (rc, s) = (if rc == 0 then ok tt else err eio, s)

  abbrev pub with_user : Result UserData → db.State → Result (Unit {0}) × db.State
  with_user (err e) s = (err eownerdead, s)
  with_user (ok u) s = was_set (set_lock_screen_owner_info (dumbos_get_fancy_name u) s)

  unfoldable pub maybe_set_lockscreen_text : Option Bytes → db.State → Result (Unit {0}) × db.State
  unfolding set_lock_screen_owner_info
  maybe_set_lockscreen_text user_file s = with_user (dumbos_alloc_get_user user_file) s
