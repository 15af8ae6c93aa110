-- ===== src/Copy/Laws.antt =====
-- daemon/mount_copy_ns.c, copy_tree: what a copy that succeeds leaves at the destination.
use dumbos_dumbos.Base.{
  ℕ, ◌≡◌, refl, sym, ◌∙◌, subst, Bool, true, false, some, Bytes, Result, ok, err, err-ne-ok,
  if◌then◌else◌, ◌==◌, inl,
}
use dumbos_dumbos.Base.Errno.{eexist}
use dumbos_dumbos.Copy.{
  Call, Node, gone, regular, symlink, directory, special, Listing, ends, entry, Entry, file, link,
  folder, device, Disk, IsPosix, join_path,
}
use dumbos_dumbos.Copy.Tree.{
  Progress, Step, on_disk, then_close, changes_mode, found_there, made, make_directory, listed,
  copy_tree, copy_entries, is_dot, unless_dot,
}
use dumbos_dumbos.Copy.Paths.{IsName, Under, not-Under-join_path, Under-apart}
use dumbos_dumbos.Copy.Frame.{
  IsNamed, AreNamed, Same, make_directory-Same, then_step-Same, unless_dot-Same, copy_tree-Same,
}
use dumbos_dumbos.Copy.Written.{
  then_step-ok, then_close-ok, copy_regular_file_file, copy_symlink_link,
}
use dumbos_dumbos.Copy.Copied.{
  IsAbsent, IsUnique, AreUnique, Unless, Unless_map, IsPlain, ArePlain, IsPlain-ArePlain,
  ArePlain-beside, IsCopied, AreCopied, IsCopied-AreSame, AreCopied-AreSame,
}

-- The path is not under any entry.
abbrev IsBeside : Bytes → Bytes → Listing → Type 0
IsBeside k p (ends r) = Unit
IsBeside k p (entry name node l) = (Under (join_path p name) k → ⊥) × IsBeside k p l

parent_apart : (p : Bytes) (l : Listing) → AreNamed l → IsBeside p p l
unfolding IsNamed
parent_apart p (ends r) named = tt
parent_apart p (entry name node l) (h, _, hl) = (not-Under-join_path p name h, parent_apart p l hl)

absent_apart :
    (k p name : Bytes) (l : Listing)
    → IsName name
    → AreNamed l
    → IsAbsent name l
    → Under (join_path p name) k
    → IsBeside k p l
unfolding IsNamed
absent_apart k p name (ends r) hn named absent u = tt
absent_apart k p name (entry other node l) hn (ho, _, hl) (ne, absent) u =
    (λ v. ne (Under-apart p name other k hn ho u v), absent_apart k p name l hn hl absent u)

module _ (D : Disk) (posix : IsPosix D) where
  copy_entries_beside :
      (l : Listing) (p k : Bytes) (g : Progress D)
      → AreNamed l
      → IsBeside k p l
      → Same D posix k g.disk (copy_entries D l p g).1.disk
  unfolding copy_tree IsNamed
  copy_entries_beside (ends r) p k g named out = refl
  copy_entries_beside (entry name node l) p k g (_, hnode, hl) (out, outs) =
      let copied = copy_tree D node (join_path p name) g in
      then_step-Same D posix k g.disk (unless_dot D name g copied) (copy_entries D l p)
        (unless_dot-Same D posix name k g copied
          (copy_tree-Same D posix node (join_path p name) k g hnode out))
        (λ g'. copy_entries_beside l p k g' hl outs)

  found_there_folder :
      (e : Result Entry) (p : Bytes) (s : D.State)
      → D.lstat p s ≡ e
      → (found_there D e s).0 ≡ ok tt
      → D.at (found_there D e s).1 p ≡ some folder
  found_there_folder (ok folder) p s eq h = posix.at-lstat p s folder eq
  found_there_folder (ok (file c)) p s eq h = absurd (err-ne-ok h)
  found_there_folder (ok (link t)) p s eq h = absurd (err-ne-ok h)
  found_there_folder (ok device) p s eq h = absurd (err-ne-ok h)
  found_there_folder (err e) p s eq h = absurd (err-ne-ok h)

  made_folder :
      (p : Bytes) (r : Call × D.State)
      → (r.0 ≡ ok tt → D.at r.1 p ≡ some folder)
      → (made D p r).0 ≡ ok tt
      → D.at (made D p r).1 p ≡ some folder
  made_folder p (ok _, s) at h = at refl
  made_folder p (err e, s) at h = branch (e == eexist) h
    where
      branch :
          (b : Bool)
          → (if b then found_there D (D.lstat p s) s else (err e, s)).0 ≡ ok tt
          → D.at (if b then found_there D (D.lstat p s) s else (err e, s)).1 p ≡ some folder
      branch true h' = found_there_folder (D.lstat p s) p s refl h'
      branch false h' = absurd (err-ne-ok h')

  make_directory_folder :
      (p : Bytes) (mode : ℕ) (s : D.State)
      → (make_directory D p mode s).0 ≡ ok tt
      → D.at (make_directory D p mode s).1 p ≡ some folder
  unfolding make_directory
  make_directory_folder p mode s h = made_folder p (D.mkdir p mode s) (posix.at-mkdir p mode s) h

  unless_dot-Unless :
      (P : Progress D → Type 0) (name : Bytes) (g : Progress D) (copied : Step D)
      → (copied.0 ≡ ok tt → P copied.1)
      → (unless_dot D name g copied).0 ≡ ok tt
      → Unless (is_dot name) (P (unless_dot D name g copied).1)
  unfolding unless_dot
  unless_dot-Unless P name g copied f h = branch (is_dot name) h
    where
      branch :
          (b : Bool)
          → (if b then (ok tt, g) else copied).0 ≡ ok tt
          → Unless b (P (if b then (ok tt, g) else copied).1)
      branch true h' = tt
      branch false h' = f h'

  mutual
    unfolding copy_tree IsCopied IsNamed IsUnique

    copy_tree-IsCopied_in :
        (node : Node) (p : Bytes) (g : Progress D)
        → IsNamed node
        → IsUnique node
        → IsPlain D p g.disk
        → (copy_tree D node p g).0 ≡ ok tt
        → IsCopied D node p (copy_tree D node p g).1.disk
    copy_tree-IsCopied_in (gone e) p g named unique plain h = absurd (err-ne-ok h)
    copy_tree-IsCopied_in (regular f) p g named unique plain h =
        copy_regular_file_file D posix f p g (plain p (inl refl)) h
    copy_tree-IsCopied_in (symlink size (ok t)) p g named unique plain h =
        copy_symlink_link D posix size (ok t) t p g refl h
    copy_tree-IsCopied_in (symlink size (err e)) p g named unique plain h = absurd (err-ne-ok h)
    copy_tree-IsCopied_in special p g named unique plain h = absurd (err-ne-ok h)
    copy_tree-IsCopied_in (directory d l) p g named unique plain h =
        let (dir_made, h1, same1) =
          then_step-ok D posix (on_disk D g.done (make_directory D p d.mode g.disk)) _ h in
        let g1 : Progress D = record {
          done = g.done;
          disk = (make_directory D p d.mode g.disk).1;
        } in
        let (dir_open, h2, same2) =
          then_step-ok D posix (d.opened, g1) (λ g''. listed D d p (copy_entries D l p g'')) h1 in
        let done = copy_entries D l p g1 in
        let (closed, _, same3) =
          then_step-ok D posix (then_close D done.0 d.closed, done.1) (changes_mode D p d.mode)
            h2 in
        let chmod_done = D.chmod p d.mode done.1.disk in
        subst (λ (g' : Progress D). (D.at g'.disk p ≡ some folder) × AreCopied D l p g'.disk)
          (sym (same1 ∙ same2 ∙ same3))
          (
            posix.chmod_keeps p p d.mode done.1.disk
                ∙ copy_entries_beside l p p g1 named (parent_apart p l named)
                ∙ make_directory_folder p d.mode g.disk dir_made,
            AreCopied-AreSame D l p done.1.disk chmod_done named
                (λ k u. posix.chmod_keeps p k d.mode done.1.disk)
                (copy_entries-AreCopied l p g1 named unique
                  (IsPlain-ArePlain D l p g.disk g1.disk named
                    (λ k. make_directory-Same D posix p k d.mode g.disk) plain)
                  (then_close-ok D posix done.0 d.closed closed)),
          )

    copy_entries-AreCopied :
        (l : Listing) (p : Bytes) (g : Progress D)
        → AreNamed l
        → AreUnique l
        → ArePlain D l p g.disk
        → (copy_entries D l p g).0 ≡ ok tt
        → AreCopied D l p (copy_entries D l p g).1.disk
    copy_entries-AreCopied (ends r) p g named unique plain h = tt
    copy_entries-AreCopied (entry name node l) p g (hn, hnode, hl) (absent, unique, uniques)
          (plain, plains) h =
        let copied = copy_tree D node (join_path p name) g in
        let first = unless_dot D name g copied in
        let (first_fine, rest_fine, same) = then_step-ok D posix first (copy_entries D l p) h in
        let rest = copy_entries D l p first.1 in
        let kept = λ (k : Bytes) (u : Under (join_path p name) k).
          copy_entries_beside l p k first.1 hl (absent_apart k p name l hn hl absent u) in
        subst (λ (g' : Progress D). AreCopied D (entry name node l) p g'.disk) (sym same)
          (
            Unless_map (is_dot name)
                (IsCopied-AreSame D node (join_path p name) first.1.disk rest.1.disk hnode kept)
                (unless_dot-Unless (λ g'. IsCopied D node (join_path p name) g'.disk) name g copied
                  (copy_tree-IsCopied_in node (join_path p name) g hnode unique plain) first_fine),
            copy_entries-AreCopied l p first.1 hl uniques
                (ArePlain-beside D l p name g.disk first.1.disk hn hl absent
                  (λ k out.
                    unless_dot-Same D posix name k g copied
                      (copy_tree-Same D posix node (join_path p name) k g hnode out))
                  plains)
                rest_fine,
          )

  -- A copy that succeeds is complete: what lies at the destination then is the source tree, each file
  -- with all its bytes, each link with its target, and each directory with all its entries at any
  -- depth, when the names that readdir gives hold no slash and differ within a directory, no device
  -- lies at or below the destination before, and different paths of the disk are different files.
  pub copy_tree-IsCopied :
      (node : Node) (dst : Bytes) (g : Progress D)
      → IsNamed node
      → IsUnique node
      → IsPlain D dst g.disk
      → (copy_tree D node dst g).0 ≡ ok tt
      → IsCopied D node dst (copy_tree D node dst g).1.disk
  copy_tree-IsCopied node dst g named unique plain h =
      copy_tree-IsCopied_in node dst g named unique plain h
