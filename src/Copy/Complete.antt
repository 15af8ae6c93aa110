-- ===== src/Copy/Complete.antt =====
-- daemon/mount_copy_ns.c, copy_tree: a copy on which nothing fails succeeds.
use dumbos_dumbos.Base.{ℕ, ◌≡◌, refl, ◌∙◌, subst, none, Bytes, ok, err, inl}
use dumbos_dumbos.Copy.{
  Node, gone, regular, symlink, directory, special, Listing, ends, entry, Disk, IsPosix, join_path,
}
use dumbos_dumbos.Copy.Tree.{
  Progress, on_disk, then_close, changes_mode, make_directory, listed, copy_tree, copy_entries,
  unless_dot,
}
use dumbos_dumbos.Copy.Paths.{IsName, Under, Under-join_path, not-Under-join_path, Under-apart}
use dumbos_dumbos.Copy.Frame.{
  IsNamed, AreNamed, unless_dot-Same, copy_tree-Same, make_directory-Same,
}
use dumbos_dumbos.Copy.Copied.{IsAbsent, IsUnique, AreUnique}
use dumbos_dumbos.Copy.Willing.{
  IsReadable, AreReadable, IsWilling, then_step-fine, then_close-fine, copy_regular_file-fine,
  copy_symlink-fine, made-fine, unless_dot-fine,
}

module _ (D : Disk) (posix : IsPosix D) (willing : IsWilling D) where
  -- Nothing lies at the path or below it.
  abbrev pub IsFree : Bytes → D.State → Type 0
  IsFree p s = (k : Bytes) → Under p k → D.at s k ≡ none

  abbrev AreFree : Listing → Bytes → D.State → Type 0
  AreFree (ends r) p s = Unit
  AreFree (entry name node l) p s = IsFree (join_path p name) s × AreFree l p s

  free_below :
      (l : Listing) (p : Bytes) (mode : ℕ) (s : D.State)
      → AreNamed l
      → IsFree p s
      → AreFree l p (make_directory D p mode s).1
  unfolding IsNamed
  free_below (ends r) p mode s named free = tt
  free_below (entry name node l) p mode s (hn, _, hl) free = (
    λ k u.
        make_directory-Same D posix p k mode s (λ e.
          not-Under-join_path p name hn (subst (λ (x : Bytes). Under (join_path p name) x) e u))
        ∙ free k (Under-join_path p name k hn u),
    free_below l p mode s hl free,
  )

  free_after :
      (l : Listing) (p name : Bytes) (node : Node) (g : Progress D)
      → IsName name
      → IsNamed node
      → AreNamed l
      → IsAbsent name l
      → AreFree l p g.disk
      → AreFree l p (unless_dot D name g (copy_tree D node (join_path p name) g)).1.disk
  unfolding IsNamed
  free_after (ends r) p name node g hn hnode named absent free = tt
  free_after (entry other n l) p name node g hn hnode (ho, _, hl) (ne, absent) (free, frees) = (
    λ k u.
        unless_dot-Same D posix name k g (copy_tree D node (join_path p name) g) (
          copy_tree-Same D posix node (join_path p name) k g hnode
            (λ v. ne (Under-apart p name other k hn ho v u)))
        ∙ free k u,
    free_after l p name node g hn hnode hl absent frees,
  )

  mutual
    unfolding copy_tree IsNamed IsUnique IsReadable make_directory

    copy_tree-fine_in :
        (node : Node) (p : Bytes) (g : Progress D)
        → IsNamed node
        → IsUnique node
        → IsReadable node
        → IsFree p g.disk
        → (copy_tree D node p g).0 ≡ ok tt
    copy_tree-fine_in (gone e) p g named unique readable free = absurd readable
    copy_tree-fine_in (regular f) p g named unique readable free =
        copy_regular_file-fine D posix willing f p g readable (free p (inl refl))
    copy_tree-fine_in (symlink size (ok t)) p g named unique readable free =
        copy_symlink-fine D posix willing size t p g readable (free p (inl refl))
    copy_tree-fine_in (symlink size (err e)) p g named unique readable free = absurd readable
    copy_tree-fine_in special p g named unique readable free = absurd readable
    copy_tree-fine_in (directory d l) p g named unique (opened, closed, readable) free =
        let g1 : Progress D = record {
          done = g.done;
          disk = (make_directory D p d.mode g.disk).1;
        } in
        then_step-fine D posix willing (on_disk D g.done (make_directory D p d.mode g.disk)) _
          (made-fine D posix willing p (D.mkdir p d.mode g.disk)
            (willing.mkdir_new p d.mode g.disk (free p (inl refl))))
          (then_step-fine D posix willing (d.opened, g1)
            (λ g''. listed D d p (copy_entries D l p g'')) opened
            (then_step-fine D posix willing
              (then_close D (copy_entries D l p g1).0 d.closed, (copy_entries D l p g1).1)
              (changes_mode D p d.mode)
              (then_close-fine D posix willing (copy_entries D l p g1).0 d.closed
                (copy_entries-fine l p g1 named unique readable
                  (free_below l p d.mode g.disk named free))
                closed)
              refl))

    copy_entries-fine :
        (l : Listing) (p : Bytes) (g : Progress D)
        → AreNamed l
        → AreUnique l
        → AreReadable l
        → AreFree l p g.disk
        → (copy_entries D l p g).0 ≡ ok tt
    copy_entries-fine (ends r) p g named unique readable free = readable
    copy_entries-fine (entry name node l) p g (hn, hnode, hl) (absent, unique, uniques) (r, rs)
          (free, frees) =
        let copied = copy_tree D node (join_path p name) g in
        then_step-fine D posix willing (unless_dot D name g copied) (copy_entries D l p)
          (unless_dot-fine D posix willing (IsReadable node) name g copied
            (λ readable. copy_tree-fine_in node (join_path p name) g hnode unique readable free) r)
          (copy_entries-fine l p _ hl uniques rs
            (free_after l p name node g hn hnode hl absent frees))

  -- A copy on which nothing fails succeeds: from a source of regular files, links and directories that
  -- can all be read, to a path where nothing lies yet, on a disk that makes what is not there and takes
  -- all that is written, interrupted or piecemeal, copy_tree returns 0.
  pub copy_tree-IsReadable :
      (node : Node) (dst : Bytes) (g : Progress D)
      → IsNamed node
      → IsUnique node
      → IsReadable node
      → IsFree dst g.disk
      → (copy_tree D node dst g).0 ≡ ok tt
  copy_tree-IsReadable node dst g named unique readable free =
      copy_tree-fine_in node dst g named unique readable free
