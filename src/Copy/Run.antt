-- ===== src/Copy/Run.antt =====
-- daemon/mount_copy_ns.c, mount_copy_unmount_ns: the parent, which clones the child and takes its status
-- from a pipe.
use dumbos_dumbos.Base.{
  ℕ, ◌≡◌, refl, sym, ap, subst, Bool, true, false, List, [], ◌∷◌, Option, none, some, Bytes, Result,
  ok, err, err-ne-ok, if◌then◌else◌, ◌==◌,
}
use dumbos_dumbos.Base.Errno.{eio, einval, echild}
use dumbos_dumbos.Copy.{Call, Disk, IsPosix}
use dumbos_dumbos.Copy.Tree.{Progress, Step, then_close, copy_tree}
use dumbos_dumbos.Copy.Measure.{measure_tree}
use dumbos_dumbos.Copy.Frame.{IsNamed}
use dumbos_dumbos.Copy.Written.{then_step-ok, then_close-ok}
use dumbos_dumbos.Copy.Copied.{IsUnique, IsPlain, IsCopied}
use dumbos_dumbos.Copy.Laws.{copy_tree-IsCopied}
use dumbos_dumbos.Copy.Child.{
  Outcomes, makes_private, mounts, unmounts, Ended, syncs, measured_total, while_mounted, status_of,
  was_mounted, mount_called, private_called, child_main,
}

-- What waitpid(2) meets before the child has ended.
pub data WaitEvent : Type 0 where
  wait_interrupted : WaitEvent
  wait_fails : ℕ → WaitEvent

-- How the child ends: child_main returns, and its status came through the pipe or not, or a signal kills
-- it, after or before a status.
pub data Fate : Type 0 where
  returns : Bool → Fate
  killed : Option Call → Fate

-- The arguments that may not be NULL, and how the calls of the parent end.
pub record Parent : Type 0 where
  pub arguments : List (Option Bytes)
  pub pipe : Call
  pub stack : Call
  pub cloned : Call
  pub waits : List WaitEvent
  pub fate : Fate

-- `device == NULL || …`
abbrev pub is_any_null : List (Option Bytes) → Bool
is_any_null [] = false
is_any_null (none ∷ arguments) = true
is_any_null (some a ∷ arguments) = is_any_null arguments

-- The errno of a status.
abbrev pub errno_of_status : Call → ℕ
errno_of_status (ok _) = eio
errno_of_status (err e) = if e == 0 then eio else e

-- Behind the wait: the status that was read, the exit status and the signal.
abbrev pub ended : Fate → Call → Call
ended (returns true) (ok _) = ok tt
ended (returns true) (err e) = err (errno_of_status (err e))
ended (returns false) status = err eio
ended (killed none) status = err echild
ended (killed (some status)) _ = err (errno_of_status status)

unfoldable pub wait_loop : List WaitEvent → Call → Call
wait_loop [] r = r
wait_loop (wait_interrupted ∷ ws) r = wait_loop ws r
wait_loop (wait_fails e ∷ ws) r = err e

abbrev pub then_call : Call → Call → Call
then_call (ok _) c = c
then_call (err e) c = err e

module _ (D : Disk) where
  -- What is returned, and how the child ended.
  unfoldable pub mount_copy_unmount_ns : Parent → Outcomes → Bytes → D.State → Call
  unfolding child_main wait_loop
  mount_copy_unmount_ns p c dst s =
      if is_any_null p.arguments
      then err einval
      else then_call p.pipe (
          then_call p.stack
            (then_call p.cloned (wait_loop p.waits (ended p.fate (child_main D c dst s).status))))

then_call-ok : (a b : Call) → then_call a b ≡ ok tt → b ≡ ok tt
then_call-ok (ok _) b h = h
then_call-ok (err e) b h = absurd (err-ne-ok h)

wait_loop-ok : (ws : List WaitEvent) (r : Call) → wait_loop ws r ≡ ok tt → r ≡ ok tt
unfolding wait_loop
wait_loop-ok [] r h = h
wait_loop-ok (wait_interrupted ∷ ws) r h = wait_loop-ok ws r h
wait_loop-ok (wait_fails e ∷ ws) r h = absurd (err-ne-ok h)

ended-ok : (f : Fate) (status : Call) → ended f status ≡ ok tt → status ≡ ok tt
ended-ok (returns true) (ok _) h = refl
ended-ok (returns true) (err e) h = absurd (err-ne-ok h)
ended-ok (returns false) status h = absurd (err-ne-ok h)
ended-ok (killed none) status h = absurd (err-ne-ok h)
ended-ok (killed (some s)) status h = absurd (err-ne-ok h)

module _ (D : Disk) (posix : IsPosix D) (c : Outcomes) (dst : Bytes) (s : D.State) where
  -- What a success means of the child.
  abbrev pub Succeeded : Ended D → Type 0
  Succeeded e =
      (e.calls ≡ (makes_private, ok tt) ∷ (mounts, ok tt) ∷ (unmounts, ok tt) ∷ [])
      × IsCopied D c.copied dst e.progress.disk

  status_of-ok : (r : Call) → status_of D r ≡ ok tt → r ≡ ok tt
  status_of-ok (ok _) h = refl
  status_of-ok (err e) h = absurd (err-ne-ok h)

  abbrev start : Progress D
  start = record { done = 0; disk = s }

  measured_total-ok :
      (total : Result ℕ)
      → IsNamed c.copied
      → IsUnique c.copied
      → IsPlain D dst s
      → (measured_total D c dst start total).0 ≡ ok tt
      → IsCopied D c.copied dst (measured_total D c dst start total).1.disk
  measured_total-ok (err e) named unique plain h = absurd (err-ne-ok h)
  measured_total-ok (ok n) named unique plain h =
      let (fine, _, same) =
        then_step-ok D posix (copy_tree D c.copied dst start) (syncs D c.synced) h in
      subst (λ (g : Progress D). IsCopied D c.copied dst g.disk) (sym same)
        (copy_tree-IsCopied D posix c.copied dst start named unique plain fine)

  while_mounted-ok :
      IsNamed c.copied
      → IsUnique c.copied
      → IsPlain D dst s
      → (while_mounted D c dst start).0 ≡ ok tt
      → IsCopied D c.copied dst (while_mounted D c dst start).1.disk
  unfolding while_mounted
  while_mounted-ok named unique plain h =
      let (_, fine, same) = then_step-ok D posix (c.clock, start) _ h in
      subst (λ (g : Progress D). IsCopied D c.copied dst g.disk) (sym same)
        (measured_total-ok (measure_tree c.measured 0) named unique plain fine)

  was_mounted-ok :
      (r : Step D)
      → (r.0 ≡ ok tt → IsCopied D c.copied dst r.1.disk)
      → (was_mounted D c r).status ≡ ok tt
      → Succeeded (was_mounted D c r)
  was_mounted-ok (r, g) copied h =
      let both = status_of-ok (then_close D r c.unmounted) h in
      (
        ap (λ (u : Call). (makes_private, ok tt) ∷ (mounts, ok tt) ∷ (unmounts, u) ∷ [])
            (close_fine r c.unmounted both),
        copied (then_close-ok D posix r c.unmounted both),
      )
    where
      close_fine : (r u : Call) → then_close D r u ≡ ok tt → u ≡ ok tt
      close_fine (ok _) u h' = h'
      close_fine (err e) u h' = absurd (err-ne-ok h')

  mount_called-ok :
      (mounted : Call)
      → c.mounted ≡ mounted
      → IsNamed c.copied
      → IsUnique c.copied
      → (c.mounted ≡ ok tt → IsPlain D dst s)
      → (mount_called D mounted c dst start).status ≡ ok tt
      → Succeeded (mount_called D mounted c dst start)
  mount_called-ok (err e) eq named unique plain h = absurd (err-ne-ok h)
  mount_called-ok (ok _) eq named unique plain h =
      was_mounted-ok (while_mounted D c dst start) (while_mounted-ok named unique (plain eq)) h

  private_called-ok :
      (private : Call)
      → c.private ≡ private
      → IsNamed c.copied
      → IsUnique c.copied
      → (c.private ≡ ok tt → c.mounted ≡ ok tt → IsPlain D dst s)
      → (private_called D private c dst start).status ≡ ok tt
      → Succeeded (private_called D private c dst start)
  private_called-ok (err e) eq named unique plain h = absurd (err-ne-ok h)
  private_called-ok (ok _) eq named unique plain h =
      mount_called-ok c.mounted refl named unique (plain eq) h

  -- The destination is looked at once the device is mounted.
  pub mount_copy_unmount_ns-Succeeded_in :
      (p : Parent)
      → IsNamed c.copied
      → IsUnique c.copied
      → (c.private ≡ ok tt → c.mounted ≡ ok tt → IsPlain D dst s)
      → mount_copy_unmount_ns D p c dst s ≡ ok tt
      → Succeeded (child_main D c dst s)
  unfolding mount_copy_unmount_ns child_main
  mount_copy_unmount_ns-Succeeded_in p named unique plain h =
      private_called-ok c.private refl named unique plain (status_ok (is_any_null p.arguments) h)
    where
      status_ok :
          (b : Bool)
          → (if b
              then err einval
              else then_call p.pipe (
                  then_call p.stack (
                    then_call p.cloned
                      (wait_loop p.waits (ended p.fate (child_main D c dst s).status)))))
            ≡ ok tt
          → (child_main D c dst s).status ≡ ok tt
      status_ok true h' = absurd (err-ne-ok h')
      status_ok false h' = ended-ok p.fate _ (
          wait_loop-ok p.waits _
            (then_call-ok p.cloned _ (then_call-ok p.stack _ (then_call-ok p.pipe _ h'))))

  -- When mount_copy_unmount_ns returns 0, its child made the mounts private, mounted the device and
  -- unmounted it again, each without an error, and what lies at the destination is the source tree,
  -- each file with all its bytes, when the names that readdir gives hold no slash and differ within a
  -- directory, no device lies at or below the destination before, and different paths are different
  -- files. A syncfs that failed is not
  -- excluded.
  pub mount_copy_unmount_ns-Succeeded :
      (p : Parent)
      → IsNamed c.copied
      → IsUnique c.copied
      → IsPlain D dst s
      → mount_copy_unmount_ns D p c dst s ≡ ok tt
      → Succeeded (child_main D c dst s)
  mount_copy_unmount_ns-Succeeded p named unique plain h =
      mount_copy_unmount_ns-Succeeded_in p named unique (λ _ _. plain) h
