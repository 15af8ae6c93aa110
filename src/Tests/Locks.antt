-- ===== src/Tests/Locks.antt =====
-- A database in memory, and a witness for the text on the lock screen.
use dumbos_dumbos.Base.{◌≡◌, ◌≢◌, ◌⊎◌, arith, refl, Bool, true, false, [], ◌∷◌, codes}
use dumbos_dumbos.Daemon.Lockscreen.{
  Rows, Sqlite, IsTransactional, deleted, inserted, set_lock_screen_owner_info,
}
use dumbos_dumbos.Daemon.Lockscreen.Laws.{shown, set_lock_screen_owner_info_atomic}

record Base : Type 0 where
  stored : Rows
  seen : Rows
  in_transaction : Bool

abbrev database : Sqlite
database = record {
  State = Base;
  saved = λ s. s.stored;
  working = λ s. s.seen;
  is_open = λ s. s.in_transaction;
  open_v2 = λ s. (0, s);
  begin_immediate = λ s. (0, record s { seen = s.stored; in_transaction = true });
  prepare = λ sql s. (0, s);
  step_delete = λ name user s. (101, record s { seen = deleted name user s.seen });
  step_insert = λ name user value s. (101, record s { seen = inserted name user value s.seen });
  commit = λ s. (0, record s { stored = s.seen; in_transaction = false });
  rollback = λ s. (0, record s { seen = s.stored; in_transaction = false });
  close = λ s. record s { seen = s.stored; in_transaction = false };
}

database-IsTransactional : IsTransactional database
database-IsTransactional = record {
  saved-open_v2 = λ s. refl;
  saved-begin = λ s. refl;
  begins = λ s h. (refl, refl);
  saved-prepare = λ sql s. refl;
  prepares = λ sql s h. (refl, refl);
  saved-step_delete = λ name user s o. refl;
  deletes = λ name user s o h. (o, refl);
  saved-step_insert = λ name user value s o. refl;
  inserts = λ name user value s o h. (o, refl);
  step_delete_code = λ name user s h. absurd (omega arith);
  step_insert_code = λ name user value s h. absurd (omega arith);
  commits = λ s o h. refl;
  not_commits = λ s h. absurd (h refl);
  saved-rollback = λ s. refl;
  saved-close = λ s. refl;
}

abbrev old : Base
old = record { stored = λ n u. codes "old" ∷ []; seen = λ n u. []; in_transaction = false }

set_lock_screen_owner_info_atomic_example :
    let (rc, s') = set_lock_screen_owner_info database (codes "Ann") old in
    ((rc ≡ 0)
      × (s'.stored (codes "lock_screen_owner_info") 0
          ≡ shown (codes "Ann") old.stored (codes "lock_screen_owner_info") 0))
    ⊎ ((rc ≢ 0) × (s'.stored (codes "lock_screen_owner_info") 0 ≡ codes "old" ∷ []))
set_lock_screen_owner_info_atomic_example =
    set_lock_screen_owner_info_atomic database database-IsTransactional (codes "Ann") old
      (codes "lock_screen_owner_info") 0
