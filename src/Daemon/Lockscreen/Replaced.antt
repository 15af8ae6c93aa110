-- ===== src/Daemon/Lockscreen/Replaced.antt =====
-- daemon/lockscreentext.c: one setting is replaced within the transaction.
use dumbos_dumbos.Base.{
  ℕ, ◌≡◌, ◌≢◌, ◌⊎◌, inl, inr, refl, sym, ap, ◌∙◌, true, Bytes, ◌==◌, ==_iff, Bool-cases,
}
use dumbos_dumbos.Daemon.Lockscreen.{
  Rows, Sqlite, IsTransactional, sqlite_done, deleted, inserted, delete_sql, insert_sql, expects,
  insert_row, prepare_insert, delete_row, replace_locksetting, rolls_back,
}

-- The rows with one setting replaced.
abbrev pub replaced : Bytes → ℕ → Bytes → Rows → Rows
replaced name user value rows = inserted name user value (deleted name user rows)

module _ (db : Sqlite) where
  pub expects-cases :
      (P : ℕ × db.State → Type 0) (wanted : ℕ) (r : ℕ × db.State) (next : db.State → ℕ × db.State)
      → (r.0 ≡ wanted → P (next r.1))
      → (r.0 ≢ wanted → P r)
      → P (expects db wanted r next)
  expects-cases P wanted (rc, s) next f g = elim (Bool-cases (rc == wanted)) [
    | inl e ↦ rw e (f ((==_iff rc wanted).0 e))
    | inr e ↦ rw e (g (λ h. cc (sym e ∙ (==_iff rc wanted).1 h)))
  ]

  pub rolls_back-cases :
      (P : ℕ × db.State → Type 0) (r : ℕ × db.State) (next : db.State → ℕ × db.State)
      → (r.0 ≡ 0 → P (next r.1))
      → (r.0 ≢ 0 → P (r.0, (db.rollback r.1).1))
      → P (rolls_back db r next)
  rolls_back-cases P (rc, s) next f g = elim (Bool-cases (rc == 0)) [
    | inl e ↦ rw e (f ((==_iff rc 0).0 e))
    | inr e ↦ rw e (g (λ h. cc (sym e ∙ (==_iff rc 0).1 h)))
  ]

  -- Nothing is saved yet; a success has made the rows within the transaction.
  abbrev pub Replaced : Rows → Rows → ℕ × db.State → Type 0
  Replaced saved after (rc, s) =
      (db.saved s ≡ saved)
      × (((rc ≡ 0) × (db.is_open s ≡ true) × (db.working s ≡ after)) ⊎ (rc ≢ 0))

module _ (db : Sqlite) (laws : IsTransactional db) where
  module _ (name : Bytes) (user : ℕ) (value : Bytes) (saved : Rows) where
    insert_row-Replaced :
        (s : db.State) (rows : Rows)
        → db.is_open s ≡ true
        → db.saved s ≡ saved
        → db.working s ≡ rows
        → Replaced db saved (inserted name user value rows) (insert_row db name user value s)
    insert_row-Replaced s rows open_s same work =
        expects-cases db (Replaced db saved (inserted name user value rows)) sqlite_done
          (db.step_insert name user value s) (λ s'. (0, s'))
          (λ e.
            let (open_s', work') = laws.inserts name user value s open_s e in
            (
              laws.saved-step_insert name user value s open_s ∙ same,
              inl (refl, open_s', work' ∙ ap (inserted name user value) work),
            ))
          (λ ne. (
            laws.saved-step_insert name user value s open_s ∙ same,
            inr (laws.step_insert_code name user value s),
          ))

    prepare_insert-Replaced :
        (s : db.State) (rows : Rows)
        → db.is_open s ≡ true
        → db.saved s ≡ saved
        → db.working s ≡ rows
        → Replaced db saved (inserted name user value rows) (prepare_insert db name user value s)
    prepare_insert-Replaced s rows open_s same work =
        expects-cases db (Replaced db saved (inserted name user value rows)) 0
          (db.prepare insert_sql s) (insert_row db name user value)
          (λ e.
            let (o, w) = laws.prepares insert_sql s e in
            insert_row-Replaced (db.prepare insert_sql s).1 rows (o ∙ open_s)
              (laws.saved-prepare insert_sql s ∙ same) (w ∙ work))
          (λ ne. (laws.saved-prepare insert_sql s ∙ same, inr ne))

    delete_row-Replaced :
        (s : db.State) (rows : Rows)
        → db.is_open s ≡ true
        → db.saved s ≡ saved
        → db.working s ≡ rows
        → Replaced db saved (replaced name user value rows) (delete_row db name user value s)
    delete_row-Replaced s rows open_s same work =
        expects-cases db (Replaced db saved (replaced name user value rows)) sqlite_done
          (db.step_delete name user s) (prepare_insert db name user value)
          (λ e.
            let (open_s', work') = laws.deletes name user s open_s e in
            prepare_insert-Replaced (db.step_delete name user s).1 (deleted name user rows) open_s'
              (laws.saved-step_delete name user s open_s ∙ same)
              (work' ∙ ap (deleted name user) work))
          (λ ne. (
            laws.saved-step_delete name user s open_s ∙ same,
            inr (laws.step_delete_code name user s),
          ))

    pub replace_locksetting-Replaced :
        (s : db.State) (rows : Rows)
        → db.is_open s ≡ true
        → db.saved s ≡ saved
        → db.working s ≡ rows
        → Replaced db saved
            (replaced name user value rows)
            (replace_locksetting db name user value s)
    unfolding replace_locksetting
    replace_locksetting-Replaced s rows open_s same work =
        expects-cases db (Replaced db saved (replaced name user value rows)) 0
          (db.prepare delete_sql s) (delete_row db name user value)
          (λ e.
            let (o, w) = laws.prepares delete_sql s e in
            delete_row-Replaced (db.prepare delete_sql s).1 rows (o ∙ open_s)
              (laws.saved-prepare delete_sql s ∙ same) (w ∙ work))
          (λ ne. (laws.saved-prepare delete_sql s ∙ same, inr ne))
