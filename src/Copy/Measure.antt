-- ===== src/Copy/Measure.antt =====
-- daemon/mount_copy_ns.c, measure_tree: the bytes that are to be copied.
use dumbos_dumbos.Base.{ℕ, ◌+◌, ◌-◌, Result, ok, err, ltb, if◌then◌else◌}
use dumbos_dumbos.Base.Errno.{eoverflow, enotsup}
use dumbos_dumbos.Copy.{
  Call, Node, gone, regular, symlink, directory, special, Listing, ends, entry,
}
use dumbos_dumbos.Copy.Tree.{is_dot}

abbrev pub uint64_max : ℕ
uint64_max = 18446744073709551615

abbrev pub then_measure : Result ℕ → (ℕ → Result ℕ) → Result ℕ
then_measure (ok total) f = f total
then_measure (err e) f = err e

-- The total, if the call succeeds.
abbrev pub if_called : Call → ℕ → Result ℕ
if_called (ok _) total = ok total
if_called (err e) total = err e

-- `*total += size`, if it does not overflow.
unfoldable pub add_size : ℕ → ℕ → Result ℕ
add_size size total = if ltb (uint64_max - total) size then err eoverflow else ok (total + size)

unfoldable mutual
  unfolding add_size is_dot

  pub measure_tree : Node → ℕ → Result ℕ
  measure_tree (gone e) total = err e
  measure_tree (regular f) total = add_size f.size total
  measure_tree (symlink size target) total = ok total
  measure_tree special total = err enotsup
  measure_tree (directory d l) total =
      then_measure (if_called d.opened total)
        (λ total'. then_measure (measure_entries l total') (if_called d.closed))

  pub measure_entries : Listing → ℕ → Result ℕ
  measure_entries (ends r) total = if_called r total
  measure_entries (entry name node l) total =
      then_measure (if is_dot name then ok total else measure_tree node total)
        (λ total'. measure_entries l total')
