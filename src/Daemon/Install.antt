-- ===== src/Daemon/Install.antt =====
-- daemon/payload_cmd.c, payload_cmd_install_this: the app in a payload is written to a file that
-- the package manager installs.
use dumbos_dumbos.Base.{
  ℕ, zero, suc, ◌≡◌, refl, ◌⊎◌, inl, inr, List, [], ◌∷◌, ◌++◌, Option, none, some, Bytes, codes,
  Result, ok, err, leb, if◌then◌else◌, length, streq_refl, Bool-cases,
}
use dumbos_dumbos.Base.Int.{ℤ, pos, negsuc}
use dumbos_dumbos.Base.Errno.{enametoolong}
use dumbos_dumbos.Files.{Files, lookup, insert, delete, lookup-insert_self, lookup-delete}
use dumbos_dumbos.Daemon.Scripts.{Host, firewall_reload}

-- The programs that were run, the code, the messages, the files as they are left, and what was in
-- the file when the package manager ran.
pub record Installed : Type 0 where
  pub programs : List (List Bytes)
  pub code : ℤ
  pub said : List Bytes
  pub files : Files
  pub seen : Option Bytes

-- `stale` is what is at the address of the path after free(3).
pub record Place : Type 0 where
  pub tmpdir : Bytes
  pub opened : Result (Unit {0})
  pub written : Result (Unit {0})
  pub stale : Bytes

abbrev pub apk_path : Place → Bytes
apk_path place = place.tmpdir ++ codes "tmp.apk"

abbrev pub pm_install : Bytes → List Bytes
pm_install path = codes "/system/bin/pm" ∷ codes "install" ∷ path ∷ []

abbrev pub stopped : ℤ → List Bytes → Files → Installed
stopped code said fs = record {
  programs = firewall_reload ∷ [];
  code = code;
  said = said;
  files = fs;
  seen = none;
}

abbrev pub pm_ran : Bytes → ℤ → Bytes → Files → Installed
pm_ran path code word fs = record {
  programs = firewall_reload ∷ pm_install path ∷ [];
  code = code;
  said = word ∷ [];
  files = delete path fs;
  seen = lookup path fs;
}

abbrev pub after_pm : Bytes → Files → Result ℕ → Installed
after_pm path fs (err e) = pm_ran path (pos e) (codes "internal error") fs
after_pm path fs (ok (suc n)) = pm_ran path (pos (suc n)) (codes "internal error") fs
after_pm path fs (ok zero) = pm_ran path (pos 0) (codes "done") fs

module _ (h : Host) (place : Place) (apk : Bytes) (fs : Files) where
  -- On failure the file to delete is named by the freed path.
  abbrev pub apk_written : Result (Unit {0}) → Installed
  apk_written (err e) =
      stopped (pos e) (codes "internal Error" ∷ [])
        (delete place.stale (insert (apk_path place) [] fs))
  apk_written (ok _) =
      after_pm (apk_path place) (insert (apk_path place) apk fs)
        (h.execv (pm_install (apk_path place)))

  abbrev pub apk_opened : Result (Unit {0}) → Installed
  apk_opened (err e) = stopped (pos e) (codes "internal error" ∷ []) fs
  apk_opened (ok _) = apk_written place.written

  -- A program that could not be run gives -1.
  abbrev pub reloaded : Result ℕ → Installed
  reloaded (err e) = stopped (negsuc 0) [] fs
  reloaded (ok (suc n)) = stopped (pos (suc n)) [] fs
  reloaded (ok zero) =
      if leb 4096 (length (apk_path place))
      then stopped (pos enametoolong) (codes "filename too long" ∷ []) fs
      else apk_opened place.opened

  unfoldable pub payload_cmd_install_this : Installed
  payload_cmd_install_this = reloaded (h.execv firewall_reload)

  -- The package manager ran, on a firewall that was reloaded.
  abbrev pub Ordered : Installed → Type 0
  Ordered i =
      (i.programs ≡ firewall_reload ∷ pm_install (apk_path place) ∷ [])
      × (h.execv firewall_reload ≡ ok 0)
      × (i.seen ≡ some apk)
      × (lookup (apk_path place) i.files ≡ none)

  abbrev pub Only : Installed → Type 0
  Only i = (i.programs ≡ firewall_reload ∷ []) × (i.seen ≡ none)

  pm_ran-Ordered :
      (code : ℤ) (word : Bytes)
      → h.execv firewall_reload ≡ ok 0
      → Ordered (pm_ran (apk_path place) code word (insert (apk_path place) apk fs))
  pm_ran-Ordered code word e = (
    refl,
    e,
    lookup-insert_self (apk_path place) apk fs,
    rw
        (
          lookup-delete (apk_path place) (apk_path place) (insert (apk_path place) apk fs),
          streq_refl (apk_path place),
        )
        refl,
  )

  -- The firewall is reloaded before anything else. The package manager runs only if that returned 0,
  -- it finds the bytes of the payload in the file, and the file is gone afterwards, also when
  -- the installation fails; unlink, whose result is not looked at, is taken to succeed.
  pub payload_cmd_install_this-Ordered :
      Only payload_cmd_install_this ⊎ Ordered payload_cmd_install_this
  unfolding payload_cmd_install_this
  payload_cmd_install_this-Ordered = firewall (h.execv firewall_reload) refl
    where
      pm :
          (r : Result ℕ)
          → h.execv firewall_reload ≡ ok 0
          → Ordered (after_pm (apk_path place) (insert (apk_path place) apk fs) r)
      pm (err e) z = pm_ran-Ordered (pos e) (codes "internal error") z
      pm (ok (suc n)) z = pm_ran-Ordered (pos (suc n)) (codes "internal error") z
      pm (ok zero) z = pm_ran-Ordered (pos 0) (codes "done") z

      write :
          (r : Result (Unit {0}))
          → h.execv firewall_reload ≡ ok 0
          → Only (apk_written r) ⊎ Ordered (apk_written r)
      write (err e) z = inl (refl, refl)
      write (ok _) z = inr (pm (h.execv (pm_install (apk_path place))) z)

      opening :
          (r : Result (Unit {0}))
          → h.execv firewall_reload ≡ ok 0
          → Only (apk_opened r) ⊎ Ordered (apk_opened r)
      opening (err e) z = inl (refl, refl)
      opening (ok _) z = write place.written z

      firewall :
          (r : Result ℕ) → h.execv firewall_reload ≡ r → Only (reloaded r) ⊎ Ordered (reloaded r)
      firewall (err e) z = inl (refl, refl)
      firewall (ok (suc n)) z = inl (refl, refl)
      firewall (ok zero) z = elim (Bool-cases (leb 4096 (length (apk_path place)))) [
        | inl long ↦ rw long (inl (refl, refl))
        | inr fits ↦ rw fits (opening place.opened z)
      ]
