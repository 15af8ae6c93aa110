-- ===== src/Copy/Frame.antt =====
-- daemon/mount_copy_ns.c: what a copy leaves alone, whatever fails.
use dumbos_dumbos.Base.{
  ℕ, ◌≡◌, ◌≢◌, refl, ap, ◌∙◌, List, [], ◌∷◌, Option, none, some, Bytes, Result, ok, err, ◌==◌, inl,
  inr, Bool-cases, Result-cases,
}
use dumbos_dumbos.Base.Errno.{eloop, enoent, eexist}
use dumbos_dumbos.Stream.{ReadEvent, got, read_interrupted, read_fails}
use dumbos_dumbos.Copy.{
  Call, Regular, Node, gone, regular, symlink, directory, special, Listing, ends, entry, Entry,
  file, link, folder, device, Disk, IsPosix, join_path,
}
use dumbos_dumbos.Copy.Tree.{
  Progress, Step, on_disk, then_step, chatgpt_write_all, copy_loop, reopened, opened_once,
  open_destination, changes_mode, copy_opened, copy_regular_file, unlinked, has_target,
  copy_symlink, read_target, found_there, made, make_directory, copy_tree, copy_entries, is_dot,
  unless_dot,
}
use dumbos_dumbos.Copy.Paths.{IsName, Under, Under-join_path}

-- The names of the entries that are copied are names.
unfoldable mutual
  pub IsNamed : Node → Type 0
  IsNamed (directory d l) = AreNamed l
  IsNamed (gone e) = Unit
  IsNamed (regular f) = Unit
  IsNamed (symlink size target) = Unit
  IsNamed special = Unit

  pub AreNamed : Listing → Type 0
  AreNamed (ends r) = Unit
  AreNamed (entry name node l) = IsName name × IsNamed node × AreNamed l

module _ (D : Disk) (posix : IsPosix D) where
  -- What lies at `k` is what lay there.
  abbrev pub Same : Bytes → D.State → D.State → Type 0
  Same k s s' = D.at s' k ≡ D.at s k

  chatgpt_write_all-Same :
      (dst buf k : Bytes) (s : D.State) → k ≢ dst → Same k s (chatgpt_write_all D dst buf s).1
  unfolding chatgpt_write_all
  chatgpt_write_all-Same dst buf k s ne = posix.append_keeps dst k _ s ne

  pub then_step-Same :
      (k : Bytes) (s : D.State) (r : Step D) (f : Progress D → Step D)
      → Same k s r.1.disk
      → ((g : Progress D) → Same k g.disk (f g).1.disk)
      → Same k s (then_step D r f).1.disk
  then_step-Same k s (ok _, g) f h hf = hf g ∙ h
  then_step-Same k s (err e, g) f h hf = h

  copy_loop-Same :
      (es : List ReadEvent) (dst k : Bytes) (g : Progress D)
      → k ≢ dst
      → Same k g.disk (copy_loop D es dst g).1.disk
  unfolding copy_loop
  copy_loop-Same [] dst k g ne = refl
  copy_loop-Same (read_interrupted ∷ es) dst k g ne = copy_loop-Same es dst k g ne
  copy_loop-Same (read_fails e ∷ es) dst k g ne = refl
  copy_loop-Same (got b bs ∷ es) dst k g ne =
      then_step-Same k g.disk (on_disk D g.done (chatgpt_write_all D dst (b ∷ bs) g.disk)) _
        (chatgpt_write_all-Same dst (b ∷ bs) k g.disk ne) (λ g'. copy_loop-Same es dst k _ ne)

  reopened-Same :
      (dst k : Bytes) (mode : ℕ) (s : D.State) (r : Call × D.State)
      → k ≢ dst
      → Same k s r.1
      → Same k s (reopened D dst mode r).1
  reopened-Same dst k mode s (ok _, s') ne h = posix.open_file_keeps dst k mode s' ne ∙ h
  reopened-Same dst k mode s (err e, s') ne h = h

  opened_once-Same :
      (dst k : Bytes) (mode : ℕ) (s : D.State) (r : Call × D.State)
      → k ≢ dst
      → Same k s r.1
      → Same k s (opened_once D dst mode r).1
  opened_once-Same dst k mode s (ok _, s') ne h = h
  opened_once-Same dst k mode s (err e, s') ne h = elim (Bool-cases (e == eloop)) [
    | inl t ↦
        rw t (reopened-Same dst k mode s (D.unlink dst s') ne (posix.unlink_keeps dst k s' ne ∙ h))
    | inr t ↦ rw t h
  ]

  open_destination-Same :
      (dst k : Bytes) (mode : ℕ) (s : D.State)
      → k ≢ dst
      → Same k s (open_destination D dst mode s).1
  unfolding open_destination
  open_destination-Same dst k mode s ne =
      opened_once-Same dst k mode s (D.open_file dst mode s) ne
        (posix.open_file_keeps dst k mode s ne)

  pub changes_mode-Same :
      (dst k : Bytes) (mode : ℕ) (g : Progress D) → Same k g.disk (changes_mode D dst mode g).1.disk
  changes_mode-Same dst k mode g = posix.chmod_keeps dst k mode g.disk

  copy_opened-Same :
      (f : Regular) (dst k : Bytes) (s : D.State) (r : Step D)
      → k ≢ dst
      → Same k s r.1.disk
      → Same k s (copy_opened D f dst r).1.disk
  copy_opened-Same f dst k s (err e, g) ne h = h
  copy_opened-Same f dst k s (ok _, g) ne h =
      posix.close_keeps dst k _
      ∙ then_step-Same k g.disk (copy_loop D f.reads dst g) (changes_mode D dst f.mode)
          (copy_loop-Same f.reads dst k g ne) (changes_mode-Same dst k f.mode)
      ∙ h

  copy_regular_file-Same :
      (f : Regular) (dst k : Bytes) (g : Progress D)
      → k ≢ dst
      → Same k g.disk (copy_regular_file D f dst g).1.disk
  unfolding copy_regular_file
  copy_regular_file-Same f dst k g ne = elim (Result-cases f.opened) [
    | inl (_, e) ↦ rw e (
        copy_opened-Same f dst k g.disk (on_disk D g.done (open_destination D dst f.mode g.disk)) ne
          (open_destination-Same dst k f.mode g.disk ne))
    | inr (_, e) ↦ rw e refl
  ]

  unlinked-Same :
      (target dst k : Bytes) (done : ℕ) (s : D.State) (r : Call × D.State)
      → k ≢ dst
      → Same k s r.1
      → Same k s (unlinked D target dst done r).1.disk
  unlinked-Same target dst k done s (ok _, s') ne h = posix.make_link_keeps target dst k s' ne ∙ h
  unlinked-Same target dst k done s (err e, s') ne h = elim (Bool-cases (e == enoent)) [
    | inl t ↦ rw t (posix.make_link_keeps target dst k s' ne ∙ h)
    | inr t ↦ rw t h
  ]

  has_target-Same :
      (t : Option (Result Bytes)) (dst k : Bytes) (g : Progress D)
      → k ≢ dst
      → Same k g.disk (has_target D t dst g).1.disk
  has_target-Same none dst k g ne = refl
  has_target-Same (some (err e)) dst k g ne = refl
  has_target-Same (some (ok target)) dst k g ne =
      unlinked-Same target dst k g.done g.disk (D.unlink dst g.disk) ne
        (posix.unlink_keeps dst k g.disk ne)

  copy_symlink-Same :
      (size : ℕ) (target : Result Bytes) (dst k : Bytes) (g : Progress D)
      → k ≢ dst
      → Same k g.disk (copy_symlink D size target dst g).1.disk
  unfolding copy_symlink
  copy_symlink-Same size (err e) dst k g ne = refl
  copy_symlink-Same size (ok target) dst k g ne =
      has_target-Same (read_target size target) dst k g ne

  found_there_same : (e : Result Entry) (s : D.State) → (found_there D e s).1 ≡ s
  found_there_same (ok folder) s = refl
  found_there_same (ok (file c)) s = refl
  found_there_same (ok (link t)) s = refl
  found_there_same (ok device) s = refl
  found_there_same (err e) s = refl

  made_same : (dst : Bytes) (r : Call × D.State) → (made D dst r).1 ≡ r.1
  made_same dst (ok _, s) = refl
  made_same dst (err e, s) = elim (Bool-cases (e == eexist)) [
    | inl t ↦ rw t (found_there_same (D.lstat dst s) s)
    | inr t ↦ rw t refl
  ]

  pub make_directory-Same :
      (dst k : Bytes) (mode : ℕ) (s : D.State) → k ≢ dst → Same k s (make_directory D dst mode s).1
  unfolding make_directory
  make_directory-Same dst k mode s ne =
      ap (λ (s' : D.State). D.at s' k) (made_same dst (D.mkdir dst mode s))
      ∙ posix.mkdir_keeps dst k mode s ne

  pub unless_dot-Same :
      (name k : Bytes) (g : Progress D) (copied : Step D)
      → Same k g.disk copied.1.disk
      → Same k g.disk (unless_dot D name g copied).1.disk
  unfolding unless_dot
  unless_dot-Same name k g copied h = elim (Bool-cases (is_dot name)) [
    | inl t ↦ rw (t, unless_dot) refl
    | inr t ↦ rw (t, unless_dot) h
  ]

  mutual
    unfolding copy_tree IsNamed

    pub copy_tree-Same :
        (node : Node) (dst k : Bytes) (g : Progress D)
        → IsNamed node
        → (Under dst k → ⊥)
        → Same k g.disk (copy_tree D node dst g).1.disk
    copy_tree-Same (gone e) dst k g named out = refl
    copy_tree-Same (regular f) dst k g named out =
        copy_regular_file-Same f dst k g (λ e. out (inl e))
    copy_tree-Same (symlink size target) dst k g named out =
        copy_symlink-Same size target dst k g (λ e. out (inl e))
    copy_tree-Same special dst k g named out = refl
    copy_tree-Same (directory d l) dst k g named out =
        then_step-Same k g.disk (on_disk D g.done (make_directory D dst d.mode g.disk)) _
          (make_directory-Same dst k d.mode g.disk (λ e. out (inl e)))
          (λ g'.
            then_step-Same k g'.disk (d.opened, g') _ refl
              (λ g''.
                then_step-Same k g''.disk (_, (copy_entries D l dst g'').1)
                  (changes_mode D dst d.mode) (copy_entries-Same l dst k g'' named out)
                  (changes_mode-Same dst k d.mode)))

    pub copy_entries-Same :
        (l : Listing) (dst k : Bytes) (g : Progress D)
        → AreNamed l
        → (Under dst k → ⊥)
        → Same k g.disk (copy_entries D l dst g).1.disk
    copy_entries-Same (ends r) dst k g named out = refl
    copy_entries-Same (entry name node l) dst k g (name_fine, node_fine, rest) out =
        then_step-Same k g.disk (unless_dot D name g (copy_tree D node (join_path dst name) g))
          (copy_entries D l dst)
          (unless_dot-Same name k g (copy_tree D node (join_path dst name) g) (
            copy_tree-Same node (join_path dst name) k g node_fine
              (λ u. out (Under-join_path dst name k name_fine u))))
          (λ g'. copy_entries-Same l dst k g' rest out)

  -- Whatever fails, a copy changes nothing but the destination and what lies below it: at every other
  -- path there is what was there before, when the names that readdir gives hold no slash and different
  -- paths of the disk are different files.
  pub copy_tree-Outside :
      (node : Node) (dst k : Bytes) (g : Progress D)
      → IsNamed node
      → (Under dst k → ⊥)
      → D.at (copy_tree D node dst g).1.disk k ≡ D.at g.disk k
  copy_tree-Outside node dst k g named out = copy_tree-Same node dst k g named out
