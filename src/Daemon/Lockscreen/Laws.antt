-- ===== src/Daemon/Lockscreen/Laws.antt =====
-- daemon/lockscreentext.c: the settings are replaced as a whole or not at all.
use dumbos_dumbos.Base.{
  ℕ, ◌≡◌, ◌≢◌, ◌⊎◌, inl, inr, refl, sym, ap, ◌∙◌, true, false, [], ◌∷◌, Bytes, codes, ◌==◌, ==_iff,
  if◌then◌else◌, streq, streq_iff, Bool-cases,
}
use dumbos_dumbos.Daemon.Lockscreen.{
  Rows, Sqlite, IsTransactional, is_row, expects, replace_locksetting, rolls_back, replace_second,
  opened, transaction, closes, set_lock_screen_owner_info,
}
use dumbos_dumbos.Daemon.Lockscreen.Replaced.{
  replaced, expects-cases, rolls_back-cases, Replaced, replace_locksetting-Replaced,
}

abbrev info : Bytes
info = codes "lock_screen_owner_info"

abbrev enabled : Bytes
enabled = codes "lock_screen_owner_info_enabled"

-- The text under its name, "1" under the name that shows it, and all else as it was.
abbrev pub shown : Bytes → Rows → Rows
shown text rows n u =
    if is_row (codes "lock_screen_owner_info") 0 n u
    then text ∷ []
    else if is_row (codes "lock_screen_owner_info_enabled") 0 n u
    then codes "1" ∷ []
    else rows n u

not_both : (n : Bytes) (u : ℕ) → is_row info 0 n u ≡ true → is_row enabled 0 n u ≡ false
unfolding streq
not_both n u h = elim (Bool-cases (streq info n)) [
  | inl e ↦ rw (sym ((streq_iff info n).0 e)) refl
  | inr e ↦ cc (sym (rw e at h))
]

shown_rows :
    (text : Bytes) (rows : Rows) (n : Bytes) (u : ℕ)
    → replaced enabled 0 (codes "1") (replaced info 0 text rows) n u ≡ shown text rows n u
shown_rows text rows n u = elim (Bool-cases (is_row info 0 n u)) [
  | inl e ↦ rw (e, not_both n u e) refl
  | inr e ↦ elim (Bool-cases (is_row enabled 0 n u)) [
    | inl f ↦ rw (e, f) refl
    | inr f ↦ rw (e, f) refl
  ]
]

module _ (db : Sqlite) (laws : IsTransactional db) where
  -- All or nothing, by the code that is returned.
  abbrev Atomic : Rows → Rows → ℕ × db.State → Type 0
  Atomic before after (rc, s) =
      ((rc ≡ 0) × (db.saved s ≡ after)) ⊎ ((rc ≢ 0) × (db.saved s ≡ before))

  commit-Atomic :
      (before after : Rows) (s : db.State)
      → db.is_open s ≡ true
      → db.saved s ≡ before
      → db.working s ≡ after
      → Atomic before after (db.commit s)
  commit-Atomic before after s open_s same work = elim (Bool-cases ((db.commit s).0 == 0)) [
    | inl e ↦
        let zero_code = (==_iff (db.commit s).0 0).0 e in
        inl (zero_code, laws.commits s open_s zero_code ∙ work)
    | inr e ↦
        let failed : (db.commit s).0 ≢ 0 = λ h. cc (sym e ∙ (==_iff (db.commit s).0 0).1 h) in
        inr (failed, laws.not_commits s failed ∙ same)
  ]

  rolls_back-Atomic :
      (before rows after : Rows) (r : ℕ × db.State) (next : db.State → ℕ × db.State)
      → Replaced db before rows r
      → (db.is_open r.1 ≡ true
          → db.saved r.1 ≡ before
          → db.working r.1 ≡ rows
          → Atomic before after (next r.1))
      → Atomic before after (rolls_back db r next)
  rolls_back-Atomic before rows after (rc, s) next (same, inl (fine, open_s, work)) f =
      rw fine (f open_s same work)
  rolls_back-Atomic before rows after (rc, s) next (same, inr failed) f =
      rolls_back-cases db (Atomic before after) (rc, s) next (λ e. absurd (failed e))
        (λ ne. inr (ne, laws.saved-rollback s ∙ same))

  abbrev both : Bytes → Rows → Rows
  both text rows = replaced enabled 0 (codes "1") (replaced info 0 text rows)

  transaction-Atomic :
      (text : Bytes) (before : Rows) (s : db.State)
      → db.is_open s ≡ true
      → db.saved s ≡ before
      → db.working s ≡ before
      → Atomic before (both text before) (transaction db text s)
  unfolding transaction
  transaction-Atomic text before s open_s same work =
      rolls_back-Atomic before (replaced info 0 text before) (both text before)
        (replace_locksetting db info 0 text s) (replace_second db)
        (replace_locksetting-Replaced db laws info 0 text before s before open_s same work)
        (λ open1 same1 work1.
          let s1 = (replace_locksetting db info 0 text s).1 in
          rolls_back-Atomic before (both text before) (both text before)
            (replace_locksetting db enabled 0 (codes "1") s1) db.commit
            (replace_locksetting-Replaced db laws enabled 0 (codes "1") before s1
              (replaced info 0 text before) open1 same1 work1)
            (λ open2 same2 work2.
              commit-Atomic before (both text before)
                (replace_locksetting db enabled 0 (codes "1") s1).1 open2 same2 work2))

  opened-Atomic :
      (text : Bytes) (before : Rows) (s : db.State)
      → db.saved s ≡ before
      → Atomic before (both text before) (opened db text s)
  opened-Atomic text before s same =
      expects-cases db (Atomic before (both text before)) 0 (db.begin_immediate s)
        (transaction db text)
        (λ e.
          let (open_s, work) = laws.begins s e in
          let same' = laws.saved-begin s ∙ same in
          transaction-Atomic text before (db.begin_immediate s).1 open_s same' (work ∙ same))
        (λ ne. inr (ne, laws.saved-begin s ∙ same))

  closes-Atomic :
      (before after : Rows) (r : ℕ × db.State)
      → Atomic before after r
      → Atomic before after (closes db r)
  closes-Atomic before after (rc, s) (inl (fine, same)) = inl (fine, laws.saved-close s ∙ same)
  closes-Atomic before after (rc, s) (inr (failed, same)) = inr (failed, laws.saved-close s ∙ same)

  -- The lock screen is set as a whole or not at all: either set_lock_screen_owner_info returns
  -- SQLITE_OK, and then the text stands under its name, "1" under the name that shows it, each once,
  -- and every other setting is as it was; or it returns another code, and no setting has changed.
  pub set_lock_screen_owner_info_atomic :
      (text : Bytes) (s : db.State) (name : Bytes) (user : ℕ)
      → let (rc, s') = set_lock_screen_owner_info db text s in
        ((rc ≡ 0) × (db.saved s' name user ≡ shown text (db.saved s) name user))
        ⊎ ((rc ≢ 0) × (db.saved s' name user ≡ db.saved s name user))
  unfolding set_lock_screen_owner_info
  set_lock_screen_owner_info_atomic text s name user =
      let before = db.saved s in
      let r = closes db (expects db 0 (db.open_v2 s) (opened db text)) in
      let atomic =
        closes-Atomic before (both text before) (expects db 0 (db.open_v2 s) (opened db text)) (
          expects-cases db (Atomic before (both text before)) 0 (db.open_v2 s) (opened db text)
            (λ e. opened-Atomic text before (db.open_v2 s).1 (laws.saved-open_v2 s))
            (λ ne. inr (ne, laws.saved-open_v2 s))) in
      elim atomic [
        | inl (fine, same) ↦
            inl (fine, ap (λ (rows : Rows). rows name user) same ∙ shown_rows text before name user)
        | inr (failed, same) ↦ inr (failed, ap (λ (rows : Rows). rows name user) same)
      ]
