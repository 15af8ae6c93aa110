-- ===== src/Copy/Willing.antt =====
-- daemon/mount_copy_ns.c: a source that can be read, a disk that can be written, and the copy of one
-- file or link between them.
use dumbos_dumbos.Base.{
  ℕ, zero, suc, ◌+◌, ◌*◌, ◌<◌, ◌≡◌, refl, Bool, true, false, List, [], ◌∷◌, none, some, Bytes, ok,
  err, err-ne-ok, ltb, if◌then◌else◌, inl, inr, length, drop, All, Bool-cases, lt→ltb, not_ltb,
  le→not_ltb, arith,
}
use dumbos_dumbos.Base.Errno.{enoent}
use dumbos_dumbos.Stream.{
  ReadEvent, got, read_interrupted, read_fails, WriteEvent, accepts, write_interrupted, write_fails,
}
use dumbos_dumbos.Copy.{
  Call, Regular, Node, gone, regular, symlink, directory, special, Listing, ends, entry, Disk,
  IsPosix,
}
use dumbos_dumbos.Copy.Tree.{
  Progress, Step, on_disk, then_step, chatgpt_write_loop, chatgpt_write_all, copy_loop, then_close,
  opened_once, open_destination, changes_mode, copy_opened, copy_regular_file, unlinked,
  copy_symlink, target_loop, read_target, made, is_dot, unless_dot,
}
use dumbos_dumbos.Copy.Copied.{Unless}

abbrev pub IsReadableEvent : ReadEvent → Type 0
IsReadableEvent (read_fails e) = ⊥
IsReadableEvent (got b bs) = Unit
IsReadableEvent read_interrupted = Unit

abbrev pub IsWritableEvent : WriteEvent → Type 0
IsWritableEvent (write_fails e) = ⊥
IsWritableEvent (accepts n) = Unit
IsWritableEvent write_interrupted = Unit

-- A source on which no call fails, of regular files, links and directories.
unfoldable mutual
  pub IsReadable : Node → Type 0
  IsReadable (gone e) = ⊥
  IsReadable (regular f) = (f.opened ≡ ok tt) × (f.closed ≡ ok tt) × All IsReadableEvent f.reads
  IsReadable (symlink size (ok t)) = length t < 9223372036854775807
  IsReadable (symlink size (err e)) = ⊥
  IsReadable special = ⊥
  IsReadable (directory d l) = (d.opened ≡ ok tt) × (d.closed ≡ ok tt) × AreReadable l

  pub AreReadable : Listing → Type 0
  AreReadable (ends r) = r ≡ ok tt
  AreReadable (entry name node l) = Unless (is_dot name) (IsReadable node) × AreReadable l

-- A disk that makes what is not there yet, and takes all that is written.
pub record IsWilling (D : Disk) : Type 0 where
  pub mkdir_new :
      (p : Bytes) (mode : ℕ) (s : D.State) → D.at s p ≡ none → (D.mkdir p mode s).0 ≡ ok tt
  pub open_file_new :
      (p : Bytes) (mode : ℕ) (s : D.State) → D.at s p ≡ none → (D.open_file p mode s).0 ≡ ok tt
  pub unlink_new :
      (p : Bytes) (s : D.State)
      → D.at s p ≡ none
      → ((D.unlink p s).0 ≡ err enoent) × (D.at (D.unlink p s).1 p ≡ none)
  pub make_link_new : (t p : Bytes) (s : D.State) → D.at s p ≡ none → (D.make_link t p s).0 ≡ ok tt
  pub writes_fine : (p : Bytes) (s : D.State) → All IsWritableEvent (D.writes p s)
  pub close_fine : (p : Bytes) (s : D.State) → (D.close p s).0 ≡ ok tt

chatgpt_write_loop_fine :
    (buf : Bytes) (es : List WriteEvent)
    → All IsWritableEvent es
    → (chatgpt_write_loop buf es).0 ≡ ok tt
unfolding chatgpt_write_loop
chatgpt_write_loop_fine [] es h = refl
chatgpt_write_loop_fine (b ∷ bs) [] h = refl
chatgpt_write_loop_fine (b ∷ bs) (write_interrupted ∷ es) (_, h) =
    chatgpt_write_loop_fine (b ∷ bs) es h
chatgpt_write_loop_fine (b ∷ bs) (write_fails e ∷ es) (h, _) = absurd h
chatgpt_write_loop_fine (b ∷ bs) (accepts zero ∷ es) (_, h) = chatgpt_write_loop_fine (b ∷ bs) es h
chatgpt_write_loop_fine (b ∷ bs) (accepts (suc n) ∷ es) (_, h) =
    chatgpt_write_loop_fine (drop n bs) es h

-- The fuel is enough: the buffer grows in every round.
target_loop_enough :
    (fuel size : ℕ) (t : Bytes)
    → 0 < size
    → length t < size + fuel
    → length t < 9223372036854775807
    → target_loop (suc fuel) size t ≡ some (ok t)
unfolding target_loop
target_loop_enough zero size t pos enough short = rw (lt→ltb (length t) size (omega arith)) refl
target_loop_enough (suc fuel) size t pos enough short = elim (Bool-cases (ltb (length t) size)) [
  | inl e ↦ rw e refl
  | inr e ↦
      let large = not_ltb (length t) size e in
      rw (e, le→not_ltb 9223372036854775807 size (omega arith))
        (target_loop_enough fuel (size * 2) t (omega arith) (omega arith) short)
]

read_target_enough :
    (size : ℕ) (t : Bytes) → length t < 9223372036854775807 → read_target size t ≡ some (ok t)
unfolding read_target
read_target_enough zero t short =
    target_loop_enough (length t) 256 t (omega arith) (omega arith) short
read_target_enough (suc n) t short =
    target_loop_enough (length t) (suc n + 1) t (omega arith) (omega arith) short

module _ (D : Disk) (posix : IsPosix D) (willing : IsWilling D) where
  pub then_step-fine :
      (r : Step D) (f : Progress D → Step D)
      → r.0 ≡ ok tt
      → (f r.1).0 ≡ ok tt
      → (then_step D r f).0 ≡ ok tt
  then_step-fine (ok _, g) f h hf = hf
  then_step-fine (err e, g) f h hf = h

  copy_loop-fine :
      (es : List ReadEvent) (dst : Bytes) (g : Progress D)
      → All IsReadableEvent es
      → (copy_loop D es dst g).0 ≡ ok tt
  unfolding copy_loop chatgpt_write_all
  copy_loop-fine [] dst g h = refl
  copy_loop-fine (read_interrupted ∷ es) dst g (_, h) = copy_loop-fine es dst g h
  copy_loop-fine (read_fails e ∷ es) dst g (h, _) = absurd h
  copy_loop-fine (got b bs ∷ es) dst g (_, h) =
      then_step-fine (on_disk D g.done (chatgpt_write_all D dst (b ∷ bs) g.disk)) _
        (chatgpt_write_loop_fine (b ∷ bs) (D.writes dst g.disk) (willing.writes_fine dst g.disk))
        (copy_loop-fine es dst _ h)

  pub then_close-fine : (r c : Call) → r ≡ ok tt → c ≡ ok tt → then_close D r c ≡ ok tt
  then_close-fine (ok _) c h hc = hc
  then_close-fine (err e) c h hc = h

  opened_once-fine :
      (dst : Bytes) (mode : ℕ) (r : Call × D.State)
      → r.0 ≡ ok tt
      → (opened_once D dst mode r).0 ≡ ok tt
  opened_once-fine dst mode (ok _, s) h = refl
  opened_once-fine dst mode (err e, s) h = absurd (err-ne-ok h)

  copy_opened-fine :
      (f : Regular) (dst : Bytes) (r : Step D)
      → IsReadable (regular f)
      → r.0 ≡ ok tt
      → (copy_opened D f dst r).0 ≡ ok tt
  unfolding IsReadable
  copy_opened-fine f dst (err e, g) readable h = h
  copy_opened-fine f dst (ok _, g) (_, closed, reads) h =
      then_close-fine _ f.closed
        (then_close-fine _ _
          (then_step-fine (copy_loop D f.reads dst g) (changes_mode D dst f.mode)
            (copy_loop-fine f.reads dst g reads) refl)
          (willing.close_fine dst _))
        closed

  pub copy_regular_file-fine :
      (f : Regular) (dst : Bytes) (g : Progress D)
      → IsReadable (regular f)
      → D.at g.disk dst ≡ none
      → (copy_regular_file D f dst g).0 ≡ ok tt
  unfolding copy_regular_file open_destination IsReadable
  copy_regular_file-fine f dst g (opened, closed, reads) new = rw opened (
      copy_opened-fine f dst (on_disk D g.done (open_destination D dst f.mode g.disk))
        (opened, closed, reads)
        (opened_once-fine dst f.mode (D.open_file dst f.mode g.disk)
          (willing.open_file_new dst f.mode g.disk new)))

  unlinked-fine :
      (t dst : Bytes) (done : ℕ) (r : Call × D.State)
      → r.0 ≡ err enoent
      → D.at r.1 dst ≡ none
      → (unlinked D t dst done r).0 ≡ ok tt
  unlinked-fine t dst done (ok _, s) h new = willing.make_link_new t dst s new
  unlinked-fine t dst done (err e, s) h new =
      let same : e ≡ enoent = cc h in rw same (willing.make_link_new t dst s new)

  pub copy_symlink-fine :
      (size : ℕ) (t dst : Bytes) (g : Progress D)
      → length t < 9223372036854775807
      → D.at g.disk dst ≡ none
      → (copy_symlink D size (ok t) dst g).0 ≡ ok tt
  unfolding copy_symlink
  copy_symlink-fine size t dst g short new =
      let (refused, still) = willing.unlink_new dst g.disk new in
      rw (read_target_enough size t short)
        (unlinked-fine t dst g.done (D.unlink dst g.disk) refused still)

  pub made-fine : (dst : Bytes) (r : Call × D.State) → r.0 ≡ ok tt → (made D dst r).0 ≡ ok tt
  made-fine dst (ok _, s) h = refl
  made-fine dst (err e, s) h = absurd (err-ne-ok h)

  pub unless_dot-fine :
      (P : Type 0) (name : Bytes) (g : Progress D) (copied : Step D)
      → (P → copied.0 ≡ ok tt)
      → Unless (is_dot name) P
      → (unless_dot D name g copied).0 ≡ ok tt
  unfolding unless_dot
  unless_dot-fine P name g copied f u = branch (is_dot name) u
    where
      branch : (b : Bool) → Unless b P → (if b then (ok tt, g) else copied).0 ≡ ok tt
      branch true u' = refl
      branch false u' = f u'
