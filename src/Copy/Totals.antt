-- ===== src/Copy/Totals.antt =====
-- daemon/mount_copy_ns.c: the progress that is shown, of measure_tree and copy_tree.
use dumbos_dumbos.Base.{
  ℕ, ◌≤◌, ◌≡◌, refl, sym, ap, ◌∙◌, subst, Bool, true, false, Bytes, Result, ok, err, err-ne-ok,
  ok-injective, if◌then◌else◌, length, arith,
}
use dumbos_dumbos.Copy.{
  Call, Node, gone, regular, symlink, directory, special, Listing, ends, entry, Disk, IsPosix,
  join_path, contents,
}
use dumbos_dumbos.Copy.Tree.{
  Progress, Step, on_disk, then_close, changes_mode, make_directory, listed, copy_tree,
  copy_entries, is_dot, unless_dot,
}
use dumbos_dumbos.Copy.Measure.{uint64_max, then_measure, if_called, measure_tree, measure_entries}
use dumbos_dumbos.Copy.Written.{then_step-ok, then_close-ok}
use dumbos_dumbos.Copy.Counted.{copy_symlink-done, copy_regular_file-done}

-- The st_size of each file is the length of its contents, as it is if nobody writes to the source.
unfoldable mutual
  pub IsSteady : Node → Type 0
  IsSteady (directory d l) = AreSteady l
  IsSteady (gone e) = Unit
  IsSteady (regular f) = f.size ≡ length (contents f.reads)
  IsSteady (symlink size target) = Unit
  IsSteady special = Unit

  pub AreSteady : Listing → Type 0
  AreSteady (ends r) = Unit
  AreSteady (entry name node l) = IsSteady node × AreSteady l

then_measure-ok :
    (r : Result ℕ) (f : ℕ → Result ℕ) (n : ℕ)
    → then_measure r f ≡ ok n
    → (m : ℕ) × (r ≡ ok m) × (f m ≡ ok n)
then_measure-ok (ok m) f n h = (m, refl, h)
then_measure-ok (err e) f n h = absurd (err-ne-ok h)

if_called-ok : (c : Call) (total n : ℕ) → if_called c total ≡ ok n → total ≡ n
if_called-ok (ok _) total n h = ok-injective h
if_called-ok (err e) total n h = absurd (err-ne-ok h)

module _ (D : Disk) (posix : IsPosix D) where
  unless_dot-measured :
      (name : Bytes) (g : Progress D) (copied : Step D) (r : Result ℕ) (m : ℕ)
      → g.done ≤ uint64_max
      → (r ≡ ok m → copied.0 ≡ ok tt → (copied.1.done ≡ m) × (m ≤ uint64_max))
      → (if is_dot name then ok g.done else r) ≡ ok m
      → (unless_dot D name g copied).0 ≡ ok tt
      → ((unless_dot D name g copied).1.done ≡ m) × (m ≤ uint64_max)
  unfolding unless_dot
  unless_dot-measured name g copied r m small f measured h = branch (is_dot name) measured h
    where
      branch :
          (b : Bool)
          → (if b then ok g.done else r) ≡ ok m
          → (if b then (ok tt, g) else copied).0 ≡ ok tt
          → ((if b then (ok tt, g) else copied).1.done ≡ m) × (m ≤ uint64_max)
      branch true e h' = (ok-injective e, subst (λ (x : ℕ). x ≤ uint64_max) (ok-injective e) small)
      branch false e h' = f e h'

  mutual
    unfolding copy_tree measure_tree IsSteady

    copy_tree-measured :
        (node : Node) (dst : Bytes) (g : Progress D) (n : ℕ)
        → IsSteady node
        → g.done ≤ uint64_max
        → measure_tree node g.done ≡ ok n
        → (copy_tree D node dst g).0 ≡ ok tt
        → ((copy_tree D node dst g).1.done ≡ n) × (n ≤ uint64_max)
    copy_tree-measured (gone e) dst g n steady small measured h = absurd (err-ne-ok h)
    copy_tree-measured (regular f) dst g n steady small measured h =
        copy_regular_file-done D posix f dst g n steady small measured h
    copy_tree-measured (symlink size t) dst g n steady small measured h = (
      copy_symlink-done D posix size t dst g ∙ ok-injective measured,
      subst (λ (m : ℕ). m ≤ uint64_max) (ok-injective measured) small,
    )
    copy_tree-measured special dst g n steady small measured h = absurd (err-ne-ok h)
    copy_tree-measured (directory d l) dst g n steady small measured h =
        let (_, h1, same1) =
          then_step-ok D posix (on_disk D g.done (make_directory D dst d.mode g.disk)) _ h in
        let g1 : Progress D = record {
          done = g.done;
          disk = (make_directory D dst d.mode g.disk).1;
        } in
        let (_, h2, same2) =
          then_step-ok D posix (d.opened, g1) (λ g''. listed D d dst (copy_entries D l dst g''))
            h1 in
        let done = copy_entries D l dst g1 in
        let (closed, _, same3) =
          then_step-ok D posix (then_close D done.0 d.closed, done.1) (changes_mode D dst d.mode)
            h2 in
        let (m, called, after_open) = then_measure-ok (if_called d.opened g.done) _ n measured in
        let (k, entries, after_close) = then_measure-ok (measure_entries l m) _ n after_open in
        let start = if_called-ok d.opened g.done m called in
        let (sum, fits) =
          copy_entries-measured l dst g1 k steady small
            (subst (λ (x : ℕ). measure_entries l x ≡ ok k) (sym start) entries)
            (then_close-ok D posix done.0 d.closed closed) in
        let end = if_called-ok d.closed k n after_close in
        (
          ap (λ (g' : Progress D). g'.done) (same1 ∙ same2 ∙ same3) ∙ sum ∙ end,
          subst (λ (x : ℕ). x ≤ uint64_max) end fits,
        )

    copy_entries-measured :
        (l : Listing) (dst : Bytes) (g : Progress D) (n : ℕ)
        → AreSteady l
        → g.done ≤ uint64_max
        → measure_entries l g.done ≡ ok n
        → (copy_entries D l dst g).0 ≡ ok tt
        → ((copy_entries D l dst g).1.done ≡ n) × (n ≤ uint64_max)
    copy_entries-measured (ends r) dst g n steady small measured h =
        let end = if_called-ok r g.done n measured in
        (end, subst (λ (x : ℕ). x ≤ uint64_max) end small)
    copy_entries-measured (entry name node l) dst g n (steady, steadies) small measured h =
        let copied = copy_tree D node (join_path dst name) g in
        let first = unless_dot D name g copied in
        let (first_fine, rest_fine, same) = then_step-ok D posix first (copy_entries D l dst) h in
        let (m, measured_one, measured_rest) =
          then_measure-ok (if is_dot name then ok g.done else measure_tree node g.done) _ n
            measured in
        let (sum, fits) =
          unless_dot-measured name g copied (measure_tree node g.done) m small
            (copy_tree-measured node (join_path dst name) g m steady small) measured_one
            first_fine in
        let (total, fits') =
          copy_entries-measured l dst first.1 n steadies (omega arith)
            (subst (λ (x : ℕ). measure_entries l x ≡ ok n) (sym sum) measured_rest) rest_fine in
        (ap (λ (g' : Progress D). g'.done) same ∙ total, fits')

  -- The progress ends at the total that was measured: when the tree was measured from 0, no file
  -- changes its size in between, and the copy succeeds, the count of copied bytes is the total.
  pub copy_tree-measure_tree :
      (node : Node) (dst : Bytes) (s : D.State) (total : ℕ)
      → IsSteady node
      → measure_tree node 0 ≡ ok total
      → (copy_tree D node dst (record { done = 0; disk = s })).0 ≡ ok tt
      → (copy_tree D node dst (record { done = 0; disk = s })).1.done ≡ total
  copy_tree-measure_tree node dst s total steady measured h =
      (copy_tree-measured node dst (record { done = 0; disk = s }) total steady (omega arith)
        measured h).0
