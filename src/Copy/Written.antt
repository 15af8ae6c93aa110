-- ===== src/Copy/Written.antt =====
-- daemon/mount_copy_ns.c: what the copy of one file or one link leaves at its path when it succeeds.
use dumbos_dumbos.Base.{
  ℕ, zero, suc, ◌≡◌, ◌≢◌, refl, sym, ap, ◌∙◌, Bool, true, false, List, [], ◌∷◌, ◌++◌, append_assoc,
  append-nil, Option, none, some, Bytes, Result, ok, err, err-ne-ok, ok-injective, arith, ◌*◌,
  if◌then◌else◌, ◌==◌, length, take, drop, take-append-drop,
}
use dumbos_dumbos.Base.Errno.{eloop, enoent}
use dumbos_dumbos.Stream.{
  ReadEvent, got, read_interrupted, read_fails, WriteEvent, accepts, write_interrupted, write_fails,
}
use dumbos_dumbos.Copy.{Call, Regular, file, link, device, Disk, IsPosix, contents}
use dumbos_dumbos.Copy.Tree.{
  Progress, Step, on_disk, then_step, chatgpt_write_loop, chatgpt_write_all, copy_loop, then_close,
  reopened, opened_once, open_destination, changes_mode, copy_opened, source_opened,
  copy_regular_file, unlinked, has_target, copy_symlink, read_target, target_loop, first_size,
}

-- chatgpt_write_all writes all of the buffer, or fails.
chatgpt_write_loop_all :
    (buf : Bytes) (es : List WriteEvent)
    → (chatgpt_write_loop buf es).0 ≡ ok tt
    → (chatgpt_write_loop buf es).1 ≡ buf
unfolding chatgpt_write_loop
chatgpt_write_loop_all [] es h = refl
chatgpt_write_loop_all (b ∷ bs) [] h = refl
chatgpt_write_loop_all (b ∷ bs) (write_interrupted ∷ es) h = chatgpt_write_loop_all (b ∷ bs) es h
chatgpt_write_loop_all (b ∷ bs) (write_fails e ∷ es) h = absurd (err-ne-ok h)
chatgpt_write_loop_all (b ∷ bs) (accepts zero ∷ es) h = chatgpt_write_loop_all (b ∷ bs) es h
chatgpt_write_loop_all (b ∷ bs) (accepts (suc n) ∷ es) h =
    ap (λ (l : Bytes). b ∷ l)
      (ap (λ (l : Bytes). take n bs ++ l) (chatgpt_write_loop_all (drop n bs) es h)
        ∙ take-append-drop n bs)

target_loop_whole :
    (fuel size : ℕ) (target t : Bytes) → target_loop fuel size target ≡ some (ok t) → t ≡ target
unfolding target_loop
target_loop_whole zero size target t h = cc h
target_loop_whole (suc fuel) size target t h =
    ground (arith, target_loop_whole fuel (size * 2) target t)

read_target_whole :
    (size : ℕ) (target t : Bytes) → read_target size target ≡ some (ok t) → t ≡ target
unfolding read_target
read_target_whole size target t h =
    target_loop_whole (suc (length target)) (first_size size) target t h

module _ (D : Disk) (posix : IsPosix D) where
  -- A step that succeeds is its two parts, each of which does.
  pub then_step-ok :
      (r : Step D) (f : Progress D → Step D)
      → (then_step D r f).0 ≡ ok tt
      → (r.0 ≡ ok tt) × ((f r.1).0 ≡ ok tt) × ((then_step D r f).1 ≡ (f r.1).1)
  then_step-ok (ok tt, g) f h = (refl, h, refl)
  then_step-ok (err e, g) f h = absurd (err-ne-ok h)

  copy_loop_file :
      (es : List ReadEvent) (dst c : Bytes) (g : Progress D)
      → D.at g.disk dst ≡ some (file c)
      → (copy_loop D es dst g).0 ≡ ok tt
      → D.at (copy_loop D es dst g).1.disk dst ≡ some (file (c ++ contents es))
  unfolding copy_loop chatgpt_write_all
  copy_loop_file [] dst c g at h = at ∙ ap (λ (l : Bytes). some (file l)) (sym (append-nil c))
  copy_loop_file (read_interrupted ∷ es) dst c g at h = copy_loop_file es dst c g at h
  copy_loop_file (read_fails e ∷ es) dst c g at h = absurd (err-ne-ok h)
  copy_loop_file (got b bs ∷ es) dst c g at h =
      let wrote = on_disk D g.done (chatgpt_write_all D dst (b ∷ bs) g.disk) in
      let (fine, rest_fine, same) = then_step-ok wrote _ h in
      let wrote_all = chatgpt_write_loop_all (b ∷ bs) (D.writes dst g.disk) fine in
      let at' =
        posix.at-append dst c (chatgpt_write_loop (b ∷ bs) (D.writes dst g.disk)).1 g.disk at
        ∙ ap (λ (l : Bytes). some (file (c ++ l))) wrote_all in
      ap (λ (g' : Progress D). D.at g'.disk dst) same
      ∙ copy_loop_file es dst (c ++ b ∷ bs) _ at' rest_fine
      ∙ ap (λ (l : Bytes). some (file l)) (append_assoc c (b ∷ bs) (contents es))

  pub then_close-ok : (r closed : Call) → then_close D r closed ≡ ok tt → r ≡ ok tt
  then_close-ok (ok tt) closed h = refl
  then_close-ok (err e) closed h = absurd (err-ne-ok h)

  reopened_file :
      (dst : Bytes) (mode : ℕ) (r : Call × D.State)
      → (r.0 ≡ ok tt → D.at r.1 dst ≡ none)
      → (reopened D dst mode r).0 ≡ ok tt
      → D.at (reopened D dst mode r).1 dst ≡ some (file [])
  reopened_file dst mode (ok _, s) gone h =
      posix.at-open_file dst mode s (λ e. absurd (cc (gone refl, e))) h
  reopened_file dst mode (err e, s) gone h = absurd (err-ne-ok h)

  opened_once_file :
      (dst : Bytes) (mode : ℕ) (r : Call × D.State)
      → (r.0 ≡ ok tt → D.at r.1 dst ≡ some (file []))
      → (opened_once D dst mode r).0 ≡ ok tt
      → D.at (opened_once D dst mode r).1 dst ≡ some (file [])
  opened_once_file dst mode (ok t, s) at h = at refl
  opened_once_file dst mode (err e, s) at h = branch (e == eloop) h
    where
      branch :
          (b : Bool)
          → (if b then reopened D dst mode (D.unlink dst s) else (err e, s)).0 ≡ ok tt
          → D.at (if b then reopened D dst mode (D.unlink dst s) else (err e, s)).1 dst
            ≡ some (file [])
      branch true h' = reopened_file dst mode (D.unlink dst s) (posix.at-unlink dst s) h'
      branch false h' = absurd (err-ne-ok h')

  open_destination_file :
      (dst : Bytes) (mode : ℕ) (s : D.State)
      → D.at s dst ≢ some device
      → (open_destination D dst mode s).0 ≡ ok tt
      → D.at (open_destination D dst mode s).1 dst ≡ some (file [])
  unfolding open_destination
  open_destination_file dst mode s plain h =
      opened_once_file dst mode (D.open_file dst mode s) (posix.at-open_file dst mode s plain) h

  copy_opened_file :
      (f : Regular) (dst : Bytes) (r : Step D)
      → (r.0 ≡ ok tt → D.at r.1.disk dst ≡ some (file []))
      → (copy_opened D f dst r).0 ≡ ok tt
      → D.at (copy_opened D f dst r).1.disk dst ≡ some (file (contents f.reads))
  copy_opened_file f dst (err e, g) at h = absurd (err-ne-ok h)
  copy_opened_file f dst (ok _, g) at h =
      let step = then_step D (copy_loop D f.reads dst g) (changes_mode D dst f.mode) in
      let fine = then_close-ok step.0 _ (then_close-ok _ f.closed h) in
      let (copied, _, same) =
        then_step-ok (copy_loop D f.reads dst g) (changes_mode D dst f.mode) fine in
      posix.close_keeps dst dst step.1.disk
      ∙ ap (λ (g' : Progress D). D.at g'.disk dst) same
      ∙ posix.chmod_keeps dst dst f.mode (copy_loop D f.reads dst g).1.disk
      ∙ copy_loop_file f.reads dst [] g (at refl) copied

  source_opened_file :
      (opened : Call) (f : Regular) (dst : Bytes) (g : Progress D)
      → D.at g.disk dst ≢ some device
      → (source_opened D opened f dst g).0 ≡ ok tt
      → D.at (source_opened D opened f dst g).1.disk dst ≡ some (file (contents f.reads))
  source_opened_file (err e) f dst g plain h = absurd (err-ne-ok h)
  source_opened_file (ok _) f dst g plain h =
      copy_opened_file f dst (on_disk D g.done (open_destination D dst f.mode g.disk))
        (open_destination_file dst f.mode g.disk plain) h

  pub copy_regular_file_file :
      (f : Regular) (dst : Bytes) (g : Progress D)
      → D.at g.disk dst ≢ some device
      → (copy_regular_file D f dst g).0 ≡ ok tt
      → D.at (copy_regular_file D f dst g).1.disk dst ≡ some (file (contents f.reads))
  unfolding copy_regular_file
  copy_regular_file_file f dst g plain h = source_opened_file f.opened f dst g plain h

  unlinked_link :
      (target dst : Bytes) (done : ℕ) (r : Call × D.State)
      → (unlinked D target dst done r).0 ≡ ok tt
      → D.at (unlinked D target dst done r).1.disk dst ≡ some (link target)
  unlinked_link target dst done (ok _, s) h = posix.at-make_link target dst s h
  unlinked_link target dst done (err e, s) h = branch (e == enoent) h
    where
      branch :
          (b : Bool)
          → (if b
              then on_disk D done (D.make_link target dst s)
              else (err e, record { done = done; disk = s })).0
            ≡ ok tt
          → D.at
              (if b
                then on_disk D done (D.make_link target dst s)
                else (err e, record { done = done; disk = s })).1.disk
              dst
            ≡ some (link target)
      branch true h' = posix.at-make_link target dst s h'
      branch false h' = absurd (err-ne-ok h')

  -- The loop around readlink(2) ends with the whole target, or with EOVERFLOW.
  has_target_link :
      (target dst : Bytes) (t : Option (Result Bytes)) (g : Progress D)
      → ((t' : Bytes) → t ≡ some (ok t') → t' ≡ target)
      → (has_target D t dst g).0 ≡ ok tt
      → D.at (has_target D t dst g).1.disk dst ≡ some (link target)
  has_target_link target dst none g same h = absurd (err-ne-ok h)
  has_target_link target dst (some (err e)) g same h = absurd (err-ne-ok h)
  has_target_link target dst (some (ok t')) g same h =
      unlinked_link t' dst g.done (D.unlink dst g.disk) h
      ∙ ap (λ (l : Bytes). some (link l)) (same t' refl)

  pub copy_symlink_link :
      (size : ℕ) (target : Result Bytes) (t dst : Bytes) (g : Progress D)
      → target ≡ ok t
      → (copy_symlink D size target dst g).0 ≡ ok tt
      → D.at (copy_symlink D size target dst g).1.disk dst ≡ some (link t)
  unfolding copy_symlink
  copy_symlink_link size (err e) t dst g eq h = absurd (err-ne-ok h)
  copy_symlink_link size (ok t') t dst g eq h =
      has_target_link t dst (read_target size t') g
        (λ t'' e. read_target_whole size t' t'' e ∙ ok-injective eq) h
