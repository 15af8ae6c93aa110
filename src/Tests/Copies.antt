-- ===== src/Tests/Copies.antt =====
-- Witnesses for the copy of files, on the disk in memory.
use dumbos_dumbos.Base.{
  streq, ◌≡◌, refl, Bytes, codes, none, some, ok, [], ◌∷◌, inl, inr, arith, ℕ, zero, suc, ap,
}
use dumbos_dumbos.Stream.{got, read_interrupted}
use dumbos_dumbos.Copy.{Node, regular, symlink, directory, ends, entry, file, Regular, Directory}
use dumbos_dumbos.Copy.Tree.{Progress, copy_tree, is_dot}
use dumbos_dumbos.Copy.Measure.{measure_tree}
use dumbos_dumbos.Copy.Paths.{Under}
use dumbos_dumbos.Copy.Frame.{IsNamed, copy_tree-Outside}
use dumbos_dumbos.Copy.Copied.{IsUnique, IsPlain, IsCopied}
use dumbos_dumbos.Copy.Laws.{copy_tree-IsCopied}
use dumbos_dumbos.Copy.Totals.{IsSteady, copy_tree-measure_tree}
use dumbos_dumbos.Copy.Willing.{IsReadable}
use dumbos_dumbos.Copy.Complete.{copy_tree-IsReadable}
use dumbos_dumbos.Tests.Disks.{Memory, memory, memory-IsPosix, memory-IsWilling, update}

abbrev hello : Regular
hello = record {
  mode = 420;
  size = 5;
  opened = ok tt;
  reads = got b'h' (codes "el") ∷ read_interrupted ∷ got b'l' (codes "o") ∷ [];
  closed = ok tt;
}

abbrev open_directory : Directory
open_directory = record { mode = 493; opened = ok tt; closed = ok tt }

abbrev pub sdcard : Node
sdcard = directory open_directory (
    entry (codes ".") (directory open_directory (ends (ok tt))) (
      entry (codes "a") (regular hello) (
        entry (codes "d")
          (directory open_directory (entry (codes "l") (symlink 1 (ok (codes "a"))) (ends (ok tt))))
          (ends (ok tt)))))

-- A byte of a path.
abbrev nth : ℕ → Bytes → ℕ
nth n [] = 0
nth zero (b ∷ bs) = b
nth (suc n) (b ∷ bs) = nth n bs

-- An empty disk.
abbrev pub empty : Memory
empty = λ p. none

abbrev start : Progress memory
start = record { done = 0; disk = empty }

-- A disk with a file beside the destination.
abbrev used : Progress memory
used = record { done = 0; disk = update (codes "/tmp/y") (some (file (codes "y"))) empty }

abbrev pub dst : Bytes
dst = codes "/tmp/x"

pub named : IsNamed sdcard
unfolding IsNamed
named = omega arith

pub unique : IsUnique sdcard
unfolding IsUnique
unique = (
  (λ e. absurd (omega (arith, ap (nth 0) e)), (λ e. absurd (omega (arith, ap (nth 0) e)), tt)),
  tt,
  ((λ e. absurd (omega (arith, ap (nth 0) e)), tt), tt, (tt, (tt, tt, tt), tt)),
)

readable : IsReadable sdcard
unfolding IsReadable is_dot
readable = (
  refl,
  refl,
  (tt, ((refl, refl, (tt, (tt, (tt, tt)))), ((refl, refl, (omega arith, refl)), refl))),
)

free : (k : Bytes) → Under dst k → memory.at empty k ≡ none
free k u = refl

copy_tree-IsReadable_example : (copy_tree memory sdcard dst start).0 ≡ ok tt
copy_tree-IsReadable_example =
    copy_tree-IsReadable memory memory-IsPosix memory-IsWilling sdcard dst start named unique
      readable free

pub copied : (copy_tree memory sdcard dst start).0 ≡ ok tt
copied =
    copy_tree-IsReadable memory memory-IsPosix memory-IsWilling sdcard dst start named unique
      readable free

-- No device lies on an empty disk.
pub plain : IsPlain memory dst empty
plain = λ k u e. absurd (cc e)

copy_tree-IsCopied_example : IsCopied memory sdcard dst (copy_tree memory sdcard dst start).1.disk
copy_tree-IsCopied_example =
    copy_tree-IsCopied memory memory-IsPosix sdcard dst start named unique plain copied

beside : Under dst (codes "/tmp/y") → ⊥
beside (inl e) = absurd (omega (arith, ap (nth 5) e))
beside (inr (r, e)) = absurd (omega (arith, ap (nth 5) e))

copy_tree-Outside_example :
    memory.at (copy_tree memory sdcard dst used).1.disk (codes "/tmp/y") ≡ some (file (codes "y"))
unfolding streq
copy_tree-Outside_example =
    copy_tree-Outside memory memory-IsPosix sdcard dst (codes "/tmp/y") used named beside

steady : IsSteady sdcard
unfolding IsSteady
steady = (tt, (refl, ((tt, tt), tt)))

measured : measure_tree sdcard 0 ≡ ok 5
unfolding measure_tree is_dot
measured = refl

copy_tree-measure_tree_example : (copy_tree memory sdcard dst start).1.done ≡ 5
copy_tree-measure_tree_example =
    copy_tree-measure_tree memory memory-IsPosix sdcard dst empty 5 steady measured copied
