-- ===== src/Tests/Drives.antt =====
-- Witnesses for the mount namespace and for the commands that copy to and from a drive.
use dumbos_dumbos.Base.{
  ◌≡◌, refl, sym, ap, ok-injective, Bytes, codes, some, Result, ok, [], ◌∷◌, true, streq, c_str,
}
use dumbos_dumbos.Base.Int.{pos}
use dumbos_dumbos.Copy.{Call, join_path}
use dumbos_dumbos.Decimal.{print_ℤ, print_ℕ}
use dumbos_dumbos.Copy.Tree.{
  copy_tree, copy_regular_file, copy_symlink, read_target, target_loop, open_destination, copy_loop,
  chatgpt_write_all, chatgpt_write_loop, make_directory, unless_dot, is_dot,
}
use dumbos_dumbos.Copy.Copied.{IsCopied}
use dumbos_dumbos.Copy.Measure.{measure_tree, add_size}
use dumbos_dumbos.Copy.Child.{Outcomes, child_main, while_mounted}
use dumbos_dumbos.Copy.Run.{
  Parent, wait_interrupted, returns, wait_loop, mount_copy_unmount_ns, Succeeded,
  mount_copy_unmount_ns-Succeeded,
}
use dumbos_dumbos.Daemon.Curl.{starts_with}
use dumbos_dumbos.Daemon.Drive.{
  Drive, Mounts, is_removable, find_block, find_removable_blockdev, run_job, try_mount_copy,
  payload_cmd_files_export,
}
use dumbos_dumbos.Daemon.Drive.Laws.{IsFoundIn, IsExfat, IsSuffix, payload_cmd_files_export-WasDone}
use dumbos_dumbos.Tests.Disks.{Memory, memory, memory-IsPosix}
use dumbos_dumbos.Tests.Copies.{sdcard, empty, dst, plain, named, unique, copied}

abbrev outcomes : Outcomes
outcomes = record {
  private = ok tt;
  mounted = ok tt;
  clock = ok tt;
  measured = sdcard;
  copied = sdcard;
  synced = ok tt;
  unmounted = ok tt;
}

abbrev parent : Parent
parent = record {
  arguments = some (codes "/dev/block/sda1") ∷ some (codes "/tmp/") ∷ [];
  pipe = ok tt;
  stack = ok tt;
  cloned = ok tt;
  waits = wait_interrupted ∷ [];
  fate = returns true;
}

succeeds : mount_copy_unmount_ns memory parent outcomes dst empty ≡ ok tt
unfolding mount_copy_unmount_ns child_main while_mounted measure_tree is_dot wait_loop
succeeds = rw copied refl

mount_copy_unmount_ns-Succeeded_example :
    Succeeded memory memory-IsPosix outcomes dst empty (child_main memory outcomes dst empty)
mount_copy_unmount_ns-Succeeded_example =
    mount_copy_unmount_ns-Succeeded memory memory-IsPosix outcomes dst empty parent named unique
      plain succeeds

-- A drive behind a disk that is not removable.
abbrev drive : Drive
drive = record {
  now = pos 5;
  blocks = ok (
      (record { name = codes "nvme0"; removable = some (codes "0") })
      ∷ (record { name = codes "sda"; removable = some (codes "1") })
      ∷ []);
  strerror = λ e. [];
}

-- Any device can be mounted, and is empty.
abbrev mounts : Mounts memory
mounts = record {
  parent = λ s. parent;
  private = λ s. ok tt;
  mount = λ path mountpoint fstype flags options s. ok empty;
  clock = λ s. ok tt;
  measured = λ path s. sdcard;
  copied = λ path s. sdcard;
  synced = λ path s. ok tt;
  unmounted = λ path s. ok tt;
}

exported : (payload_cmd_files_export memory mounts drive empty).said ≡ codes "done" ∷ []
unfolding payload_cmd_files_export find_removable_blockdev find_block is_removable starts_with
    try_mount_copy run_job mount_copy_unmount_ns child_main while_mounted measure_tree is_dot
    wait_loop copy_tree copy_regular_file copy_symlink read_target target_loop open_destination
    copy_loop chatgpt_write_all chatgpt_write_loop make_directory unless_dot join_path add_size
    streq c_str print_ℤ print_ℕ
exported = refl

mounts-IsExfat : IsExfat memory memory-IsPosix mounts
mounts-IsExfat path mountpoint flags options s s' e k u eq =
    let blank : s' ≡ empty = sym (ok-injective e) in
    absurd (cc (ap (λ (t : Memory). t k) blank, eq))

payload_cmd_files_export-WasDone_example :
    (devname : Bytes) × IsFoundIn devname drive.blocks
    × (suffix : Bytes) × (before : Memory) × IsSuffix memory memory-IsPosix mounts suffix
    × (mounted : Memory) × (◌≡◌ {A = Result Memory} (ok empty) (ok mounted))
    × (◌≡◌ {A = Call} (ok tt) (ok tt))
    × IsCopied memory sdcard
        (codes "/tmp/export-5")
        (payload_cmd_files_export memory mounts drive empty).disk
unfolding print_ℤ print_ℕ
payload_cmd_files_export-WasDone_example =
    payload_cmd_files_export-WasDone memory memory-IsPosix mounts drive empty
      (λ path s. (named, unique)) mounts-IsExfat exported
