-- ===== src/Daemon/Folders.antt =====
-- daemon/util.c, mkdir_p: a folder is made with the folders above it.
pub mod Laws
use dumbos_dumbos.Base.{
  ℕ, ◌-◌, ◌<◌, ◌≡◌, ◌⊎◌, refl, ap, ◌∙◌, sym, subst, [], ◌∷◌, ◌++◌, append_assoc, append-nil, Bytes,
  Result, ok, err, err-ne-ok, leb, ◌==◌, ==_iff, if◌then◌else◌, Bool-cases, inl, inr, length,
  length-append, length-take, ◌≤◌, take, arith,
}
use dumbos_dumbos.Base.Errno.{eexist, enametoolong}
use dumbos_dumbos.Daemon.SecretCode.{ends_in_slash}

abbrev pub Call : Type 0
Call = Result (Unit {0})

-- The calls of mkdir(2) with the mode 0700. At a path lies a folder, something else, or nothing.
pub record Folders : Type 1 where
  pub State : Type 0
  pub mkdir : Bytes → State → Call × State
  pub IsFolder : Bytes → State → Type 0
  pub IsOther : Bytes → State → Type 0

-- What mkdir(2) documents: it makes folders only, and removes nothing.
pub record IsMkdir (F : Folders) : Type 0 where
  pub makes : (p : Bytes) (s : F.State) → (F.mkdir p s).0 ≡ ok tt → F.IsFolder p (F.mkdir p s).1
  pub exists :
      (p : Bytes) (s : F.State)
      → (F.mkdir p s).0 ≡ err eexist
      → F.IsFolder p (F.mkdir p s).1 ⊎ F.IsOther p (F.mkdir p s).1
  pub keeps_folder : (p q : Bytes) (s : F.State) → F.IsFolder q s → F.IsFolder q (F.mkdir p s).1
  pub keeps_other : (p q : Bytes) (s : F.State) → F.IsOther q s → F.IsOther q (F.mkdir p s).1
  pub makes_no_other : (p q : Bytes) (s : F.State) → F.IsOther q (F.mkdir p s).1 → F.IsOther q s

-- The path without the slash at its end.
abbrev pub without_slash : Bytes → Bytes
without_slash path = if ends_in_slash path then take (length path - 1) path else path

module _ (F : Folders) where
  -- A folder that is there already is no failure.
  abbrev pub unless_failed : Call × F.State → (F.State → Call × F.State) → Call × F.State
  unless_failed (ok _, s) next = next s
  unless_failed (err e, s) next = if e == eexist then next s else (err e, s)

  -- The bytes that `p` has passed, and those from `p` on.
  unfoldable pub mkdir_loop : Bytes → Bytes → F.State → Call × F.State
  mkdir_loop passed [] s = unless_failed (F.mkdir passed s) (λ s'. (ok tt, s'))
  mkdir_loop passed (c ∷ cs) s =
      let rest = mkdir_loop (passed ++ c ∷ []) cs in
      if c == b'/' then unless_failed (F.mkdir passed s) rest else rest s

  -- The loop starts behind the first byte.
  abbrev pub mkdir_from : Bytes → F.State → Call × F.State
  mkdir_from [] s = mkdir_loop [] [] s
  mkdir_from (c ∷ cs) s = mkdir_loop (c ∷ []) cs s

  unfoldable pub mkdir_p : Bytes → F.State → Call × F.State
  unfolding mkdir_loop
  mkdir_p path s =
      if length path == 0
      then (ok tt, s)
      else if leb 4096 (length path)
      then (err enametoolong, s)
      else mkdir_from (without_slash path) s
