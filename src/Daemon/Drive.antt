-- ===== src/Daemon/Drive.antt =====
-- daemon/payload_cmd.c, payload_cmd_files_import and payload_cmd_files_export, which copy to and from a
-- drive, and daemon/util.c, find_removable_blockdev.
pub mod Laws
use dumbos_dumbos.Base.{
  ℕ, ◌+◌, Bool, true, false, ◌&&◌, ◌||◌, List, [], ◌∷◌, ◌++◌, Option, none, some, Bytes, codes,
  Result, ok, err, ◌==◌, if◌then◌else◌, take, c_str,
}
use dumbos_dumbos.Base.Int.{ℤ, pos}
use dumbos_dumbos.Base.Errno.{enoent, enodev}
use dumbos_dumbos.Decimal.{print_ℤ}
use dumbos_dumbos.Copy.{Call, Node, Disk}
use dumbos_dumbos.Copy.Child.{Outcomes, Ended, child_main}
use dumbos_dumbos.Copy.Run.{Parent, mount_copy_unmount_ns}
use dumbos_dumbos.Daemon.Curl.{starts_with}
use dumbos_dumbos.Daemon.Scripts.{Ran}

-- An entry of /sys/block: its name, and what the first read(2) of its file `removable` gives, `none`
-- where that file cannot be opened or read.
pub record Block : Type 0 where
  pub name : Bytes
  pub removable : Option Bytes

-- `strchr(buf, '\n')` and a NUL there.
abbrev pub first_line : Bytes → Bytes
first_line [] = []
first_line (c ∷ cs) = let rest = first_line cs in if c == 10 then [] else c ∷ rest

abbrev pub starts_with_one : Bytes → Bool
starts_with_one [] = false
starts_with_one (c ∷ cs) = c == b'1'

-- read(2) takes at most seven bytes.
abbrev pub reads_one : Option Bytes → Bool
reads_one none = false
reads_one (some content) = starts_with_one (first_line (c_str (take 7 content)))

-- A physical device that is removable.
unfoldable pub is_removable : Block → Bool
unfolding starts_with
is_removable b =
    (starts_with (codes "sd") b.name
      || (starts_with (codes "mmcblk") b.name || starts_with (codes "nvme") b.name))
    && reads_one b.removable

unfoldable pub find_block : List Block → Result Bytes
unfolding is_removable
find_block [] = err enodev
find_block (b ∷ bs) = let rest = find_block bs in if is_removable b then ok b.name else rest

-- What opendir(3) of /sys/block gives.
unfoldable pub find_removable_blockdev : Result (List Block) → Result Bytes
unfolding find_block
find_removable_blockdev (err e) = err e
find_removable_blockdev (ok bs) = find_block bs

-- The arguments of mount_copy_unmount_ns.
pub record Job : Type 0 where
  pub device : Bytes
  pub mountpoint : Bytes
  pub fstype : Bytes
  pub flags : ℕ
  pub options : Option Bytes
  pub copy_src : Bytes
  pub copy_dst : Bytes

-- The clock, the block devices, and the text of an errno.
pub record Drive : Type 0 where
  pub now : ℤ
  pub blocks : Result (List Block)
  pub strerror : ℕ → Bytes

-- `snprintf(path, sizeof(path), …)`
abbrev pub device_path : Bytes → Bytes → Bytes
device_path devname suffix = take 4095 (codes "/dev/block/" ++ (devname ++ suffix))

abbrev pub on_device : Job → Bytes → Bytes → Job
on_device job devname suffix = record job { device = device_path devname suffix }

-- MS_NOSUID, MS_NODEV and MS_NOEXEC.
abbrev pub mount_flags : ℕ
mount_flags = 2 + (4 + 8)

abbrev pub external_mountpoint : Bytes
external_mountpoint = codes "/tmp/"

abbrev pub import_job : Drive → Job
import_job v = record {
  device = [];
  mountpoint = external_mountpoint;
  fstype = codes "exfat";
  flags = mount_flags;
  options = none;
  copy_src = external_mountpoint;
  copy_dst = codes "/sdcard/import-" ++ print_ℤ v.now;
}

abbrev pub export_job : Drive → Job
export_job v = record {
  device = [];
  mountpoint = external_mountpoint;
  fstype = codes "exfat";
  flags = mount_flags;
  options = some (codes "fmask=00117,dmask=00007,uid=0,gid=0");
  copy_src = codes "/sdcard/";
  copy_dst = external_mountpoint ++ (codes "export-" ++ print_ℤ v.now);
}

-- The hint behind ENOENT.
abbrev pub missing_hint : ℕ → List Bytes
missing_hint e =
    if e == enoent
    then codes
        "make sure '/sdcard/' exists! that should be the location of all the files to export (or possibly your USB is unplugged or not detected)"
      ∷ []
    else []

-- What the calls for a job give, on a disk in a state: `mount` of a device at a mount point, with the
-- type, the flags and the options, gives the disk as the child then sees it, and `measured` and
-- `copied` the tree at a path as it is found twice.
pub record Mounts (D : Disk) : Type 0 where
  pub parent : D.State → Parent
  pub private : D.State → Call
  pub mount : Bytes → Bytes → Bytes → ℕ → Option Bytes → D.State → Result D.State
  pub clock : D.State → Call
  pub measured : Bytes → D.State → Node
  pub copied : Bytes → D.State → Node
  pub synced : Bytes → D.State → Call
  pub unmounted : Bytes → D.State → Call

module _ (D : Disk) (m : Mounts D) where
  abbrev pub mount_of : Job → D.State → Result D.State
  mount_of job s = m.mount job.device job.mountpoint job.fstype job.flags job.options s

  abbrev pub call_of : Result D.State → Call
  call_of (ok _) = ok tt
  call_of (err e) = err e

  -- The disk that the child works on.
  abbrev pub seen : D.State → Call → Result D.State → D.State
  seen s (ok _) (ok s') = s'
  seen s (ok _) (err e) = s
  seen s (err e) mounted = s

  abbrev pub child_disk : Job → D.State → D.State
  child_disk job s = seen s (m.private s) (mount_of job s)

  abbrev pub outcomes_of : Job → D.State → Outcomes
  outcomes_of job s = record {
    private = m.private s;
    mounted = call_of (mount_of job s);
    clock = m.clock s;
    measured = m.measured job.copy_src (child_disk job s);
    copied = m.copied job.copy_src (child_disk job s);
    synced = m.synced job.copy_dst s;
    unmounted = m.unmounted job.mountpoint s;
  }

  abbrev pub arguments_of : Job → List (Option Bytes)
  arguments_of job =
      some job.device
      ∷ some job.mountpoint
      ∷ some job.fstype
      ∷ some job.copy_src
      ∷ some job.copy_dst
      ∷ []

  abbrev pub parent_of : Job → D.State → Parent
  parent_of job s = record (m.parent s) { arguments = arguments_of job }

  -- The child of a job.
  abbrev pub child_of : Job → D.State → Ended D
  child_of job s = child_main D (outcomes_of job s) job.copy_dst (child_disk job s)

  -- The copy of one job, and the disk behind it.
  unfoldable pub run_job : Job → D.State → Call × D.State
  run_job job s = (
    mount_copy_unmount_ns D (parent_of job s) (outcomes_of job s) job.copy_dst (child_disk job s),
    (child_of job s).progress.disk,
  )

  -- The next path is tried where the copy failed.
  abbrev pub or_else : Call × D.State → (D.State → Call × D.State) → Call × D.State
  or_else (ok _, s) next = (ok tt, s)
  or_else (err e, s) next = next s

  -- The first partition of the device under both of its names, and the device itself.
  unfoldable pub try_mount_copy : Bytes → Job → D.State → Call × D.State
  unfolding run_job
  try_mount_copy devname job s = or_else (run_job (on_device job devname (codes "1")) s) (λ s1.
      or_else (run_job (on_device job devname (codes "p1")) s1)
        (λ s2. run_job (on_device job devname []) s2))

  -- The code, what the client is told, and the disk.
  pub record Copied : Type 0 where
    pub code : ℤ
    pub said : List Bytes
    pub disk : D.State

  abbrev pub copy_ends : Drive → (ℕ → List Bytes) → Call × D.State → Copied
  copy_ends v hint (ok _, s) = record { code = pos 0; said = codes "done" ∷ []; disk = s }
  copy_ends v hint (err e, s) = record {
    code = pos e;
    said = codes "copying failed" ∷ v.strerror e ∷ hint e;
    disk = s;
  }

  abbrev pub with_device : Drive → Job → (ℕ → List Bytes) → D.State → Result Bytes → Copied
  with_device v job hint s (err e) = record {
    code = pos e;
    said = codes "no removable drive found" ∷ [];
    disk = s;
  }
  with_device v job hint s (ok devname) = copy_ends v hint (try_mount_copy devname job s)

  unfoldable pub payload_cmd_files_import : Drive → D.State → Copied
  unfolding find_removable_blockdev try_mount_copy
  payload_cmd_files_import v s =
      with_device v (import_job v) (λ e. []) s (find_removable_blockdev v.blocks)

  unfoldable pub payload_cmd_files_export : Drive → D.State → Copied
  unfolding find_removable_blockdev try_mount_copy
  payload_cmd_files_export v s =
      with_device v (export_job v) missing_hint s (find_removable_blockdev v.blocks)
