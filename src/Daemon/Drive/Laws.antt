-- ===== src/Daemon/Drive/Laws.antt =====
-- daemon/payload_cmd.c: what a copy to or from a drive has done when it tells the client so.
use dumbos_dumbos.Base.{
  ℕ, ◌≡◌, ◌⊎◌, refl, sym, ap, ◌∙◌, subst, Bool, true, false, List, [], ◌∷◌, ◌++◌, append_assoc,
  Option, some, Bytes, codes, Result, ok, err, err-ne-ok, ok-injective, if◌then◌else◌, arith,
  length, take, inl, inr, Bool-cases,
}
use dumbos_dumbos.Base.Int.{ℤ}
use dumbos_dumbos.Decimal.{print_ℤ}
use dumbos_dumbos.Daemon.SecretCode.{ends_in_slash}
use dumbos_dumbos.Copy.{Call, Disk, IsPosix}
use dumbos_dumbos.Copy.Tree.{Progress}
use dumbos_dumbos.Copy.Paths.{Under}
use dumbos_dumbos.Copy.Frame.{IsNamed}
use dumbos_dumbos.Copy.Copied.{IsUnique, IsPlain, IsCopied}
use dumbos_dumbos.Copy.Child.{
  Outcomes, MountCall, makes_private, mounts, unmounts, mount_called, private_called, child_main,
}
use dumbos_dumbos.Copy.Run.{mount_copy_unmount_ns-Succeeded_in}
use dumbos_dumbos.Daemon.Drive.{
  Block, is_removable, find_block, find_removable_blockdev, Job, Drive, on_device, export_job,
  Mounts, mount_of, call_of, seen, child_disk, outcomes_of, parent_of, run_job, or_else,
  try_mount_copy, missing_hint, copy_ends, with_device, payload_cmd_files_export,
}

-- The device is the first that is physical and removable.
abbrev pub IsFirst : Bytes → List Block → Type 0
IsFirst devname [] = ⊥
IsFirst devname (b ∷ bs) =
    ((is_removable b ≡ true) × (devname ≡ b.name)) ⊎ ((is_removable b ≡ false) × IsFirst devname bs)

find_block-IsFirst :
    (bs : List Block) (devname : Bytes) → find_block bs ≡ ok devname → IsFirst devname bs
unfolding find_block
find_block-IsFirst [] devname h = absurd (err-ne-ok h)
find_block-IsFirst (b ∷ bs) devname h = elim (Bool-cases (is_removable b)) [
  | inl e ↦ inl (
    e,
    sym (
        ok-injective
          (subst (λ (t : Bool). (if t then ok b.name else find_block bs) ≡ ok devname) e h)),
  )
  | inr e ↦ inr (
    e,
    find_block-IsFirst bs devname
        (subst (λ (t : Bool). (if t then ok b.name else find_block bs) ≡ ok devname) e h),
  )
]

-- The devices that there are, and the first of them that is removable.
abbrev pub IsFoundIn : Bytes → Result (List Block) → Type 0
IsFoundIn devname (err e) = ⊥
IsFoundIn devname (ok bs) = IsFirst devname bs

find_removable_blockdev-IsFoundIn :
    (blocks : Result (List Block)) (devname : Bytes)
    → find_removable_blockdev blocks ≡ ok devname
    → IsFoundIn devname blocks
unfolding find_removable_blockdev
find_removable_blockdev-IsFoundIn (err e) devname h = absurd (err-ne-ok h)
find_removable_blockdev-IsFoundIn (ok bs) devname h = find_block-IsFirst bs devname h

-- The directory of an export on the drive.
abbrev export_dst : ℤ → Bytes
export_dst now = codes "/tmp/" ++ (codes "export-" ++ print_ℤ now)

-- The call that unmounts.
abbrev third : List (MountCall × Call) → Call
third [] = err 0
third (a ∷ []) = err 0
third (a ∷ b ∷ []) = err 0
third (a ∷ b ∷ c ∷ calls) = c.1

module _ (D : Disk) (posix : IsPosix D) where
  abbrev AreFine : Outcomes → Type 0
  AreFine c = (c.private ≡ ok tt) × (c.mounted ≡ ok tt) × (c.unmounted ≡ ok tt)

  mount_called-AreFine :
      (mounted : Call) (c : Outcomes) (dst : Bytes) (g : Progress D)
      → (mount_called D mounted c dst g).calls
        ≡ (makes_private, ok tt) ∷ (mounts, ok tt) ∷ (unmounts, ok tt) ∷ []
      → (mounted ≡ ok tt) × (c.unmounted ≡ ok tt)
  mount_called-AreFine (ok _) c dst g h = (refl, ap third h)
  mount_called-AreFine (err e) c dst g h = absurd (omega (arith, ap length h))

  private_called-AreFine :
      (private : Call) (c : Outcomes) (dst : Bytes) (g : Progress D)
      → (private_called D private c dst g).calls
        ≡ (makes_private, ok tt) ∷ (mounts, ok tt) ∷ (unmounts, ok tt) ∷ []
      → (private ≡ ok tt) × (c.mounted ≡ ok tt) × (c.unmounted ≡ ok tt)
  private_called-AreFine (ok _) c dst g h =
      let (fine, unmounted) = mount_called-AreFine c.mounted c dst g h in (refl, fine, unmounted)
  private_called-AreFine (err e) c dst g h = absurd (omega (arith, ap length h))

  child_main-AreFine :
      (c : Outcomes) (dst : Bytes) (s : D.State)
      → (child_main D c dst s).calls
        ≡ (makes_private, ok tt) ∷ (mounts, ok tt) ∷ (unmounts, ok tt) ∷ []
      → AreFine c
  unfolding child_main
  child_main-AreFine c dst s h =
      private_called-AreFine c.private c dst (record { done = 0; disk = s }) h

module _ (D : Disk) (posix : IsPosix D) (m : Mounts D) where
  -- The names in all trees are names, and differ within a directory.
  abbrev pub AreTrees : Type 0
  AreTrees = (path : Bytes) (s : D.State) → IsNamed (m.copied path s) × IsUnique (m.copied path s)

  -- An exFAT file system holds no devices: once it is mounted, none lies at or below the mount point.
  abbrev pub IsExfat : Type 0
  IsExfat =
      (path mountpoint : Bytes) (flags : ℕ) (options : Option Bytes) (s s' : D.State)
      → m.mount path mountpoint (codes "exfat") flags options s ≡ ok s'
      → IsPlain D mountpoint s'

  -- The mount of a job leaves no device at its destination.
  abbrev Clears : Job → Type 0
  Clears job = (s s' : D.State) → mount_of D m job s ≡ ok s' → IsPlain D job.copy_dst s'

  -- The device was mounted and unmounted, and the source lies at the destination on the disk.
  abbrev pub JobDone : Job → D.State → D.State → Type 0
  JobDone job s s' =
      (mounted : D.State) × (mount_of D m job s ≡ ok mounted)
      × (m.unmounted job.mountpoint s ≡ ok tt)
      × IsCopied D (m.copied job.copy_src mounted) job.copy_dst s'

  seen-IsPlain :
      (dst : Bytes) (s : D.State) (private : Call) (mounted : Result D.State)
      → ((s' : D.State) → mounted ≡ ok s' → IsPlain D dst s')
      → private ≡ ok tt
      → call_of D m mounted ≡ ok tt
      → IsPlain D dst (seen D m s private mounted)
  seen-IsPlain dst s (ok _) (ok s') plain h1 h2 = plain s' refl
  seen-IsPlain dst s (ok _) (err e) plain h1 h2 = absurd (err-ne-ok h2)
  seen-IsPlain dst s (err e) mounted plain h1 h2 = absurd (err-ne-ok h1)

  seen_mounted :
      (s : D.State) (private : Call) (mounted : Result D.State)
      → private ≡ ok tt
      → call_of D m mounted ≡ ok tt
      → mounted ≡ ok (seen D m s private mounted)
  seen_mounted s (ok _) (ok s') h1 h2 = refl
  seen_mounted s (ok _) (err e) h1 h2 = absurd (err-ne-ok h2)
  seen_mounted s (err e) mounted h1 h2 = absurd (err-ne-ok h1)

  run_job-JobDone :
      (job : Job) (s : D.State)
      → AreTrees
      → Clears job
      → (run_job D m job s).0 ≡ ok tt
      → JobDone job s (run_job D m job s).1
  unfolding run_job
  run_job-JobDone job s trees clears h =
      let before = child_disk D m job s in
      let (named, unique) = trees job.copy_src before in
      let (calls, copied) =
        mount_copy_unmount_ns-Succeeded_in D posix (outcomes_of D m job s) job.copy_dst before
          (parent_of D m job s) named unique
          (seen-IsPlain job.copy_dst s (m.private s) (mount_of D m job s) (clears s)) h in
      let (private, mounted, unmounted) =
        child_main-AreFine D posix (outcomes_of D m job s) job.copy_dst before calls in
      (before, seen_mounted s (m.private s) (mount_of D m job s) private mounted, unmounted, copied)

  -- One of the three paths of the device.
  abbrev pub IsSuffix : Bytes → Type 0
  IsSuffix suffix = (suffix ≡ codes "1") ⊎ ((suffix ≡ codes "p1") ⊎ (suffix ≡ []))

  abbrev WasDone : Bytes → Job → D.State → Type 0
  WasDone devname job s' =
      (suffix : Bytes) × (s : D.State) × IsSuffix suffix
      × JobDone (on_device job devname suffix) s s'

  -- Whatever device the job is on.
  abbrev ClearAll : Job → Type 0
  ClearAll job = (devname suffix : Bytes) → Clears (on_device job devname suffix)

  job-WasDone :
      (devname suffix : Bytes) (job : Job) (s : D.State)
      → IsSuffix suffix
      → AreTrees
      → ClearAll job
      → (run_job D m (on_device job devname suffix) s).0 ≡ ok tt
      → WasDone devname job (run_job D m (on_device job devname suffix) s).1
  job-WasDone devname suffix job s which trees clears h = (
    suffix,
    s,
    which,
    run_job-JobDone (on_device job devname suffix) s trees (clears devname suffix) h,
  )

  or_else-elim :
      (P : D.State → Type 0) (r : Call × D.State) (next : D.State → Call × D.State)
      → (r.0 ≡ ok tt → P r.1)
      → ((s : D.State) → (next s).0 ≡ ok tt → P (next s).1)
      → (or_else D m r next).0 ≡ ok tt
      → P (or_else D m r next).1
  or_else-elim P (ok _, s) next f g h = f refl
  or_else-elim P (err e, s) next f g h = g s h

  try_mount_copy-WasDone :
      (devname : Bytes) (job : Job) (s : D.State)
      → AreTrees
      → ClearAll job
      → (try_mount_copy D m devname job s).0 ≡ ok tt
      → WasDone devname job (try_mount_copy D m devname job s).1
  unfolding try_mount_copy
  try_mount_copy-WasDone devname job s trees clears h =
      or_else-elim (WasDone devname job) (run_job D m (on_device job devname (codes "1")) s) _
        (job-WasDone devname (codes "1") job s (inl refl) trees clears)
        (λ s1.
          or_else-elim (WasDone devname job) (run_job D m (on_device job devname (codes "p1")) s1) _
            (job-WasDone devname (codes "p1") job s1 (inr (inl refl)) trees clears)
            (λ s2. job-WasDone devname [] job s2 (inr (inr refl)) trees clears))
        h

  abbrev first_length : List Bytes → ℕ
  first_length [] = 0
  first_length (said ∷ rest) = length said

  -- What the client is told.
  abbrev done : List Bytes
  done = codes "done" ∷ []

  copy_ends-WasDone :
      (v : Drive) (hint : ℕ → List Bytes) (P : D.State → Type 0) (r : Call × D.State)
      → (r.0 ≡ ok tt → P r.1)
      → (copy_ends D m v hint r).said ≡ done
      → P (copy_ends D m v hint r).disk
  copy_ends-WasDone v hint P (ok _, s) f h = f refl
  copy_ends-WasDone v hint P (err e, s) f h = absurd (omega (arith, ap length h))

  with_device-WasDone :
      (v : Drive) (job : Job) (hint : ℕ → List Bytes) (s : D.State) (found : Result Bytes)
      → find_removable_blockdev v.blocks ≡ found
      → AreTrees
      → ClearAll job
      → (with_device D m v job hint s found).said ≡ done
      → (devname : Bytes) × IsFoundIn devname v.blocks
        × WasDone devname job (with_device D m v job hint s found).disk
  with_device-WasDone v job hint s (err e) eq trees clears h =
      absurd (omega (arith, ap first_length h))
  with_device-WasDone v job hint s (ok devname) eq trees clears h = (
    devname,
    find_removable_blockdev-IsFoundIn v.blocks devname eq,
    copy_ends-WasDone v hint (WasDone devname job) (try_mount_copy D m devname job s)
        (try_mount_copy-WasDone devname job s trees clears) h,
  )

  -- Every path at or below the directory of an export lies below the mount point.
  external_export : (now : ℤ) (k : Bytes) → Under (export_dst now) k → Under (codes "/tmp/") k
  unfolding ends_in_slash
  external_export now k (inl e) = inr (codes "export-" ++ print_ℤ now, e)
  external_export now k (inr (r, e)) =
      let dst : Bytes = codes "export-" ++ print_ℤ now in
      let tail : Bytes = if ends_in_slash (export_dst now) then [] else b'/' ∷ [] in
      inr (
        dst ++ (tail ++ r),
        e ∙ append_assoc (export_dst now) tail r ∙ append_assoc (codes "/tmp/") dst (tail ++ r),
      )

  -- When an export tells the client "done", the first removable device, under one of the three paths
  -- of its first partition or of itself, was mounted at /tmp/ as exFAT with MS_NOSUID, MS_NODEV and
  -- MS_NOEXEC and with "fmask=00117,dmask=00007,uid=0,gid=0", and unmounted again, and the tree at /sdcard/ lies at /tmp/export-<time> on the
  -- disk, each file with all its bytes, when the names in a directory hold no slash and differ, an
  -- exFAT file system holds no devices, and different paths of the disk are different files.
  pub payload_cmd_files_export-WasDone :
      (v : Drive) (s : D.State)
      → AreTrees
      → IsExfat
      → (payload_cmd_files_export D m v s).said ≡ codes "done" ∷ []
      → (devname : Bytes) × IsFoundIn devname v.blocks
        × (suffix : Bytes) × (before : D.State) × IsSuffix suffix
        × (mounted : D.State) × (m.mount
              (take 4095 (codes "/dev/block/" ++ (devname ++ suffix)))
              (codes "/tmp/")
              (codes "exfat")
              14
              (some (codes "fmask=00117,dmask=00007,uid=0,gid=0"))
              before
            ≡ ok mounted)
        × (m.unmounted (codes "/tmp/") before ≡ ok tt)
        × IsCopied D
            (m.copied (codes "/sdcard/") mounted)
            (codes "/tmp/" ++ (codes "export-" ++ print_ℤ v.now))
            (payload_cmd_files_export D m v s).disk
  unfolding payload_cmd_files_export
  payload_cmd_files_export-WasDone v s trees exfat h =
      let (devname, found, (suffix, before, which, (mounted, fine, unmounted, copied))) =
        with_device-WasDone v (export_job v) missing_hint s (find_removable_blockdev v.blocks) refl
          trees
          (λ devname suffix before mounted e k u.
            exfat (take 4095 (codes "/dev/block/" ++ (devname ++ suffix))) (codes "/tmp/") 14
              (some (codes "fmask=00117,dmask=00007,uid=0,gid=0")) before mounted e k
              (external_export v.now k u))
          h in
      (devname, found, suffix, before, which, mounted, fine, unmounted, copied)
