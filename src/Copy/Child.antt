-- ===== src/Copy/Child.antt =====
-- daemon/mount_copy_ns.c, child_main: the copy in a mount namespace of its own.
use dumbos_dumbos.Base.{ℕ, List, [], ◌∷◌, Bytes, Result, ok, err, if◌then◌else◌, ◌==◌}
use dumbos_dumbos.Base.Errno.{eio}
use dumbos_dumbos.Copy.{Call, Node, Disk}
use dumbos_dumbos.Copy.Tree.{Progress, Step, then_step, then_close, copy_tree}
use dumbos_dumbos.Copy.Measure.{measure_tree}

-- How the child's calls end, the source as it is measured, and the source as it is copied.
pub record Outcomes : Type 0 where
  pub private : Call
  pub mounted : Call
  pub clock : Call
  pub measured : Node
  pub copied : Node
  pub synced : Call
  pub unmounted : Call

-- The calls of mount(2) and umount2(2).
pub data MountCall : Type 0 where
  makes_private mounts unmounts : MountCall

module _ (D : Disk) where
  -- How the child ends: its status, the mount calls with their outcomes, and the progress.
  pub record Ended : Type 0 where
    pub status : Call
    pub calls : List (MountCall × Call)
    pub progress : Progress D

  -- syncfs(2) of the destination, whose failure is logged only.
  abbrev pub syncs : Call → Progress D → Step D
  syncs synced g = (ok tt, g)

  abbrev pub measured_total : Outcomes → Bytes → Progress D → Result ℕ → Step D
  measured_total c dst g (err e) = (err e, g)
  measured_total c dst g (ok total) = then_step D (copy_tree D c.copied dst g) (syncs c.synced)

  -- From the mount to `out:`.
  unfoldable pub while_mounted : Outcomes → Bytes → Progress D → Step D
  while_mounted c dst g =
      then_step D (c.clock, g) (λ g'. measured_total c dst g' (measure_tree c.measured 0))

  -- send_child_status, which sends no errno of 0.
  abbrev pub status_of : Call → Call
  status_of (ok _) = ok tt
  status_of (err e) = err (if e == 0 then eio else e)

  -- `out:` without a mounted device, and with one.
  abbrev pub not_mounted : ℕ → List (MountCall × Call) → Progress D → Ended
  not_mounted e calls g = record { status = status_of (err e); calls = calls; progress = g }

  abbrev pub was_mounted : Outcomes → Step D → Ended
  was_mounted c (r, g) = record {
    status = status_of (then_close D r c.unmounted);
    calls = (makes_private, ok tt) ∷ (mounts, ok tt) ∷ (unmounts, c.unmounted) ∷ [];
    progress = g;
  }

  abbrev pub mount_called : Call → Outcomes → Bytes → Progress D → Ended
  mount_called (err e) c dst g = not_mounted e ((makes_private, ok tt) ∷ (mounts, err e) ∷ []) g
  mount_called (ok _) c dst g = was_mounted c (while_mounted c dst g)

  abbrev pub private_called : Call → Outcomes → Bytes → Progress D → Ended
  private_called (err e) c dst g = not_mounted e ((makes_private, err e) ∷ []) g
  private_called (ok _) c dst g = mount_called c.mounted c dst g

  unfoldable pub child_main : Outcomes → Bytes → D.State → Ended
  unfolding while_mounted
  child_main c dst s = private_called c.private c dst (record { done = 0; disk = s })
