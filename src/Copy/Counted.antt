-- ===== src/Copy/Counted.antt =====
-- daemon/mount_copy_ns.c: what one file or link adds to the count of copied bytes.
use dumbos_dumbos.Base.{
  ℕ, ◌+◌, ◌%◌, ◌≤◌, ◌≡◌, refl, ap, ◌∙◌, List, [], ◌∷◌, Option, none, some, Bytes, Result, ok, err,
  err-ne-ok, ◌==◌, inl, inr, length, length-append, Bool-cases, arith,
}
use dumbos_dumbos.Base.Errno.{enoent}
use dumbos_dumbos.Stream.{ReadEvent, got, read_interrupted, read_fails}
use dumbos_dumbos.Copy.{Call, Regular, Disk, IsPosix, contents}
use dumbos_dumbos.Copy.Tree.{
  Progress, Step, on_disk, then_step, chatgpt_write_all, copy_loop, open_destination, changes_mode,
  copy_opened, source_opened, copy_regular_file, unlinked, has_target, copy_symlink, read_target,
}
use dumbos_dumbos.Copy.Measure.{uint64_max, add_size}
use dumbos_dumbos.Copy.Written.{then_step-ok, then_close-ok}

add_size-ok :
    (size total n : ℕ)
    → add_size size total ≡ ok n
    → total ≤ uint64_max
    → (n ≡ total + size) × (n ≤ uint64_max)
unfolding add_size
add_size-ok size total n h fits = ground arith

module _ (D : Disk) (posix : IsPosix D) where
  copy_loop-done :
      (es : List ReadEvent) (dst : Bytes) (g : Progress D)
      → g.done + length (contents es) ≤ uint64_max
      → (copy_loop D es dst g).0 ≡ ok tt
      → (copy_loop D es dst g).1.done ≡ g.done + length (contents es)
  unfolding copy_loop
  copy_loop-done [] dst g fits h = omega arith
  copy_loop-done (read_interrupted ∷ es) dst g fits h = copy_loop-done es dst g fits h
  copy_loop-done (read_fails e ∷ es) dst g fits h = absurd (err-ne-ok h)
  copy_loop-done (got b bs ∷ es) dst g fits h =
      let wrote = on_disk D g.done (chatgpt_write_all D dst (b ∷ bs) g.disk) in
      let (_, rest_fine, same) = then_step-ok D posix wrote _ h in
      let size = length-append (b ∷ bs) (contents es) in
      let sum : (g.done + length (b ∷ bs)) % 18446744073709551616 ≡ g.done + length (b ∷ bs) =
        omega (arith, size) in
      let next : Progress D = record {
        done = (g.done + length (b ∷ bs)) % 18446744073709551616;
        disk = wrote.1.disk;
      } in
      let rest = copy_loop-done es dst next (omega (arith, size, sum)) rest_fine in
      ap (λ (g' : Progress D). g'.done) same ∙ omega (arith, rest, size, sum)

  changes_mode-done :
      (dst : Bytes) (mode : ℕ) (r : Step D)
      → (then_step D r (changes_mode D dst mode)).1.done ≡ r.1.done
  changes_mode-done dst mode (ok _, g) = refl
  changes_mode-done dst mode (err e, g) = refl

  copy_opened-done :
      (f : Regular) (dst : Bytes) (r : Step D)
      → r.1.done + length (contents f.reads) ≤ uint64_max
      → (copy_opened D f dst r).0 ≡ ok tt
      → (copy_opened D f dst r).1.done ≡ r.1.done + length (contents f.reads)
  copy_opened-done f dst (err e, g) fits h = absurd (err-ne-ok h)
  copy_opened-done f dst (ok _, g) fits h =
      let step = then_step D (copy_loop D f.reads dst g) (changes_mode D dst f.mode) in
      let fine = then_close-ok D posix step.0 _ (then_close-ok D posix _ f.closed h) in
      let (copied, _, _) =
        then_step-ok D posix (copy_loop D f.reads dst g) (changes_mode D dst f.mode) fine in
      changes_mode-done dst f.mode (copy_loop D f.reads dst g)
      ∙ copy_loop-done f.reads dst g fits copied

  source_opened-done :
      (opened : Call) (f : Regular) (dst : Bytes) (g : Progress D)
      → g.done + length (contents f.reads) ≤ uint64_max
      → (source_opened D opened f dst g).0 ≡ ok tt
      → (source_opened D opened f dst g).1.done ≡ g.done + length (contents f.reads)
  source_opened-done (err e) f dst g fits h = absurd (err-ne-ok h)
  source_opened-done (ok _) f dst g fits h =
      copy_opened-done f dst (on_disk D g.done (open_destination D dst f.mode g.disk)) fits h

  unlinked-done :
      (target dst : Bytes) (done : ℕ) (r : Call × D.State)
      → (unlinked D target dst done r).1.done ≡ done
  unlinked-done target dst done (ok _, s) = refl
  unlinked-done target dst done (err e, s) = elim (Bool-cases (e == enoent)) [
    | inl t ↦ rw t refl
    | inr t ↦ rw t refl
  ]

  has_target-done :
      (t : Option (Result Bytes)) (dst : Bytes) (g : Progress D)
      → (has_target D t dst g).1.done ≡ g.done
  has_target-done none dst g = refl
  has_target-done (some (err e)) dst g = refl
  has_target-done (some (ok t)) dst g = unlinked-done t dst g.done (D.unlink dst g.disk)

  pub copy_symlink-done :
      (size : ℕ) (target : Result Bytes) (dst : Bytes) (g : Progress D)
      → (copy_symlink D size target dst g).1.done ≡ g.done
  unfolding copy_symlink
  copy_symlink-done size (err e) dst g = refl
  copy_symlink-done size (ok t) dst g = has_target-done (read_target size t) dst g

  pub copy_regular_file-done :
      (f : Regular) (dst : Bytes) (g : Progress D) (n : ℕ)
      → f.size ≡ length (contents f.reads)
      → g.done ≤ uint64_max
      → add_size f.size g.done ≡ ok n
      → (copy_regular_file D f dst g).0 ≡ ok tt
      → ((copy_regular_file D f dst g).1.done ≡ n) × (n ≤ uint64_max)
  unfolding copy_regular_file
  copy_regular_file-done f dst g n steady small measured h =
      let (sum, fits) = add_size-ok f.size g.done n measured small in
      (source_opened-done f.opened f dst g (omega arith) h ∙ omega arith, fits)
