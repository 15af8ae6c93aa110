-- ===== src/Copy/Tree.antt =====
-- daemon/mount_copy_ns.c: copy_regular_file, copy_symlink and copy_tree, with chatgpt_write_all. The
-- progress is the count of bytes that were copied; its printing is left out.
use dumbos_dumbos.Base.{
  ℕ, zero, suc, ◌+◌, ◌*◌, ◌/◌, ◌%◌, Bool, ◌||◌, List, [], ◌∷◌, ◌++◌, Option, none, some, Bytes,
  codes, Result, ok, err, ltb, ◌==◌, if◌then◌else◌, length, take, drop, streq,
}
use dumbos_dumbos.Base.Errno.{enoent, eexist, enotdir, eloop, eoverflow, enotsup}
use dumbos_dumbos.Stream.{
  ReadEvent, got, read_interrupted, read_fails, WriteEvent, accepts, write_interrupted, write_fails,
}
use dumbos_dumbos.Copy.{
  Call, Regular, Directory, Node, gone, regular, symlink, directory, special, Listing, ends, entry,
  Entry, folder, Disk, join_path,
}

-- The loop of chatgpt_write_all: the outcome and the bytes that were taken. A write(2) that takes
-- nothing is repeated.
unfoldable pub chatgpt_write_loop : Bytes → List WriteEvent → Call × Bytes
chatgpt_write_loop [] es = (ok tt, [])
chatgpt_write_loop (b ∷ bs) [] = (ok tt, b ∷ bs)
chatgpt_write_loop (b ∷ bs) (write_interrupted ∷ es) = chatgpt_write_loop (b ∷ bs) es
chatgpt_write_loop (b ∷ bs) (write_fails e ∷ es) = (err e, [])
chatgpt_write_loop (b ∷ bs) (accepts zero ∷ es) = chatgpt_write_loop (b ∷ bs) es
chatgpt_write_loop (b ∷ bs) (accepts (suc n) ∷ es) =
    let (r, taken) = chatgpt_write_loop (drop n bs) es in (r, b ∷ take n bs ++ taken)

-- The loop of copy_symlink around readlink(2), which gives at most `size` bytes of the target; `none`
-- stands for running out of fuel.
unfoldable pub target_loop : ℕ → ℕ → Bytes → Option (Result Bytes)
target_loop zero size target = none
target_loop (suc fuel) size target =
    let rest = target_loop fuel (size * 2) target in
    if ltb (length target) size
    then some (ok target)
    else if ltb (18446744073709551615 / 2) size
    then some (err eoverflow)
    else rest

-- The first size of the buffer.
abbrev pub first_size : ℕ → ℕ
first_size zero = 256
first_size (suc n) = suc n + 1

-- Each round makes the buffer larger, so one more round than the target has bytes is enough.
unfoldable pub read_target : ℕ → Bytes → Option (Result Bytes)
unfolding target_loop
read_target st_size target = target_loop (suc (length target)) (first_size st_size) target

-- "." and ".."
unfoldable pub is_dot : Bytes → Bool
unfolding streq
is_dot name = streq name (codes ".") || streq name (codes "..")

module _ (D : Disk) where
  -- struct copy_progress, of which only `done` matters, with the disk.
  pub record Progress : Type 0 where
    pub done : ℕ
    pub disk : D.State

  abbrev pub Step : Type 0
  Step = Call × Progress

  -- The step that follows a call on the disk.
  abbrev pub on_disk : ℕ → Call × D.State → Step
  on_disk done (r, s) = (r, record { done = done; disk = s })

  abbrev pub then_step : Step → (Progress → Step) → Step
  then_step (ok _, g) f = f g
  then_step (err e, g) f = (err e, g)

  unfoldable pub chatgpt_write_all : Bytes → Bytes → D.State → Call × D.State
  unfolding chatgpt_write_loop
  chatgpt_write_all dst buf s =
      let (r, taken) = chatgpt_write_loop buf (D.writes dst s) in (r, D.append dst taken s)

  -- The loop of copy_regular_file.
  unfoldable pub copy_loop : List ReadEvent → Bytes → Progress → Step
  unfolding chatgpt_write_all
  copy_loop [] dst g = (ok tt, g)
  copy_loop (read_interrupted ∷ es) dst g = copy_loop es dst g
  copy_loop (read_fails e ∷ es) dst g = (err e, g)
  copy_loop (got b bs ∷ es) dst g =
      then_step (on_disk g.done (chatgpt_write_all dst (b ∷ bs) g.disk)) (λ g'.
        copy_loop es dst (record g' { done = (g'.done + length (b ∷ bs)) % 18446744073709551616 }))

  abbrev pub reopened : Bytes → ℕ → Call × D.State → Call × D.State
  reopened dst mode (ok _, s) = D.open_file dst mode s
  reopened dst mode (err e, s) = (err e, s)

  abbrev pub opened_once : Bytes → ℕ → Call × D.State → Call × D.State
  opened_once dst mode (ok _, s) = (ok tt, s)
  opened_once dst mode (err e, s) =
      if e == eloop then reopened dst mode (D.unlink dst s) else (err e, s)

  -- A symbolic link at the destination is deleted, and the file opened again.
  unfoldable pub open_destination : Bytes → ℕ → D.State → Call × D.State
  open_destination dst mode s = opened_once dst mode (D.open_file dst mode s)

  -- `out:` with both files open: a close that fails is an error if nothing else was.
  abbrev pub then_close : Call → Call → Call
  then_close (err e) closed = err e
  then_close (ok _) closed = closed

  abbrev pub closes : Regular → Bytes → Step → Step
  closes f dst (r, g) =
      let (closed, s) = D.close dst g.disk in
      (then_close (then_close r closed) f.closed, record g { disk = s })

  -- fchmod(2), whose outcome is not looked at.
  abbrev pub changes_mode : Bytes → ℕ → Progress → Step
  changes_mode dst mode g = (ok tt, record g { disk = D.chmod dst mode g.disk })

  abbrev pub copy_opened : Regular → Bytes → Step → Step
  copy_opened f dst (err e, g) = (err e, g)
  copy_opened f dst (ok _, g) =
      closes f dst (then_step (copy_loop f.reads dst g) (changes_mode dst f.mode))

  abbrev pub source_opened : Call → Regular → Bytes → Progress → Step
  source_opened (err e) f dst g = (err e, g)
  source_opened (ok _) f dst g =
      copy_opened f dst (on_disk g.done (open_destination dst f.mode g.disk))

  unfoldable pub copy_regular_file : Regular → Bytes → Progress → Step
  unfolding open_destination copy_loop
  copy_regular_file f dst g = source_opened f.opened f dst g

  -- Behind the loop of copy_symlink.
  abbrev pub unlinked : Bytes → Bytes → ℕ → Call × D.State → Step
  unlinked target dst done (ok _, s) = on_disk done (D.make_link target dst s)
  unlinked target dst done (err e, s) =
      if e == enoent
      then on_disk done (D.make_link target dst s)
      else (err e, record { done = done; disk = s })

  abbrev pub has_target : Option (Result Bytes) → Bytes → Progress → Step
  has_target none dst g = (err eoverflow, g)
  has_target (some (err e)) dst g = (err e, g)
  has_target (some (ok target)) dst g = unlinked target dst g.done (D.unlink dst g.disk)

  unfoldable pub copy_symlink : ℕ → Result Bytes → Bytes → Progress → Step
  unfolding read_target
  copy_symlink st_size (err e) dst g = (err e, g)
  copy_symlink st_size (ok target) dst g = has_target (read_target st_size target) dst g

  -- mkdir(2) of the destination, which may be there as a directory.
  abbrev pub found_there : Result Entry → D.State → Call × D.State
  found_there (ok folder) s = (ok tt, s)
  found_there (ok _) s = (err enotdir, s)
  found_there (err e) s = (err e, s)

  abbrev pub made : Bytes → Call × D.State → Call × D.State
  made dst (ok _, s) = (ok tt, s)
  made dst (err e, s) = if e == eexist then found_there (D.lstat dst s) s else (err e, s)

  unfoldable pub make_directory : Bytes → ℕ → D.State → Call × D.State
  make_directory dst mode s = made dst (D.mkdir dst mode s)

  -- Behind the loop over a directory: closedir(3), and chmod(2) if nothing failed.
  abbrev pub listed : Directory → Bytes → Step → Step
  listed d dst (r, g) = then_step (then_close r d.closed, g) (changes_mode dst d.mode)

  -- The entries for the directory itself and its parent are passed over.
  unfoldable pub unless_dot : Bytes → Progress → Step → Step
  unfolding is_dot
  unless_dot name g copied = if is_dot name then (ok tt, g) else copied

  unfoldable mutual
    unfolding copy_regular_file copy_symlink make_directory unless_dot join_path

    pub copy_tree : Node → Bytes → Progress → Step
    copy_tree (gone e) dst g = (err e, g)
    copy_tree (regular f) dst g = copy_regular_file f dst g
    copy_tree (symlink size target) dst g = copy_symlink size target dst g
    copy_tree special dst g = (err enotsup, g)
    copy_tree (directory d l) dst g =
        then_step (on_disk g.done (make_directory dst d.mode g.disk))
          (λ g'. then_step (d.opened, g') (λ g''. listed d dst (copy_entries l dst g'')))

    pub copy_entries : Listing → Bytes → Progress → Step
    copy_entries (ends r) dst g = (r, g)
    copy_entries (entry name node l) dst g =
        then_step (unless_dot name g (copy_tree node (join_path dst name) g))
          (λ g'. copy_entries l dst g')
