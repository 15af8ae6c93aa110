-- ===== src/Daemon/Folders/Laws.antt =====
-- daemon/util.c, mkdir_p: what is a folder when it returns 0.
use dumbos_dumbos.Base.{
  ℕ, ◌-◌, ◌<◌, ◌≡◌, ◌⊎◌, refl, ap, ◌∙◌, sym, subst, [], ◌∷◌, ◌++◌, append_assoc, append-nil, Bytes,
  ok, err, err-ne-ok, leb, ◌==◌, ==_iff, Bool-cases, inl, inr, length, length-append, length-take,
  ◌≤◌, arith,
}
use dumbos_dumbos.Base.Errno.{eexist}
use dumbos_dumbos.Daemon.SecretCode.{ends_in_slash}
use dumbos_dumbos.Daemon.Folders.{
  Call, Folders, IsMkdir, without_slash, unless_failed, mkdir_loop, mkdir_from, mkdir_p,
}

-- Something lies at the path.
abbrev There : (F : Folders) → Bytes → F.State → Type 0
There F p s = F.IsFolder p s ⊎ F.IsOther p s

length-without_slash : (path : Bytes) → length (without_slash path) ≤ length path
length-without_slash path = elim (Bool-cases (ends_in_slash path)) [
  | inl t ↦ rw t (omega (arith, length-take {0} (length path - 1) path))
  | inr t ↦ rw t (omega arith)
]

module _ (F : Folders) (laws : IsMkdir F) where
  unless_failed-ok :
      (r : Call × F.State) (next : F.State → Call × F.State)
      → (unless_failed F r next).0 ≡ ok tt
      → ((r.0 ≡ ok tt) ⊎ (r.0 ≡ err eexist)) × (unless_failed F r next ≡ next r.1)
  unless_failed-ok (ok _, s) next = λ _. (inl refl, refl)
  unless_failed-ok (err e, s) next = elim (Bool-cases (e == eexist)) [
    | inl t ↦ rw t (λ _. (inr (ap err ((==_iff e eexist).0 t)), refl))
    | inr t ↦ rw t (λ h. absurd (err-ne-ok h))
  ]

  mkdir_keeps : (p q : Bytes) (s : F.State) → There F q s → There F q (F.mkdir p s).1
  mkdir_keeps p q s (inl h) = inl (laws.keeps_folder p q s h)
  mkdir_keeps p q s (inr h) = inr (laws.keeps_other p q s h)

  unless_failed-Other :
      (q : Bytes) (r : Call × F.State) (next : F.State → Call × F.State)
      → ((s : F.State) → F.IsOther q (next s).1 → F.IsOther q s)
      → F.IsOther q (unless_failed F r next).1
      → F.IsOther q r.1
  unless_failed-Other q (ok _, s) next k = k s
  unless_failed-Other q (err e, s) next k = elim (Bool-cases (e == eexist)) [
    | inl t ↦ rw t (k s)
    | inr t ↦ rw t (λ h. h)
  ]

  mkdir_loop-Other :
      (cs passed q : Bytes) (s : F.State) → F.IsOther q (mkdir_loop F passed cs s).1 → F.IsOther q s
  unfolding mkdir_loop
  mkdir_loop-Other [] passed q s = λ h.
      laws.makes_no_other passed q s
        (unless_failed-Other q (F.mkdir passed s) (λ s'. (ok tt, s')) (λ s' h'. h') h)
  mkdir_loop-Other (c ∷ cs) passed q s = elim (Bool-cases (c == b'/')) [
    | inl t ↦ rw t (λ h.
        laws.makes_no_other passed q s
          (unless_failed-Other q (F.mkdir passed s) _ (mkdir_loop-Other cs (passed ++ c ∷ []) q) h))
    | inr t ↦ rw t (mkdir_loop-Other cs (passed ++ c ∷ []) q s)
  ]

  mkdir_from-Other :
      (path q : Bytes) (s : F.State) → F.IsOther q (mkdir_from F path s).1 → F.IsOther q s
  mkdir_from-Other [] q s h = mkdir_loop-Other [] [] q s h
  mkdir_from-Other (c ∷ cs) q s h = mkdir_loop-Other cs (c ∷ []) q s h

  unless_failed-keeps :
      (q : Bytes) (r : Call × F.State) (next : F.State → Call × F.State)
      → There F q r.1
      → ((s : F.State) → There F q s → There F q (next s).1)
      → There F q (unless_failed F r next).1
  unless_failed-keeps q (ok _, s) next h k = k s h
  unless_failed-keeps q (err e, s) next h k = elim (Bool-cases (e == eexist)) [
    | inl t ↦ rw t (k s h)
    | inr t ↦ rw t h
  ]

  mkdir_loop-keeps :
      (cs passed q : Bytes) (s : F.State) → There F q s → There F q (mkdir_loop F passed cs s).1
  unfolding mkdir_loop
  mkdir_loop-keeps [] passed q s h =
      unless_failed-keeps q (F.mkdir passed s) _ (mkdir_keeps passed q s h) (λ s' h'. h')
  mkdir_loop-keeps (c ∷ cs) passed q s h = elim (Bool-cases (c == b'/')) [
    | inl t ↦ rw t (
        unless_failed-keeps q (F.mkdir passed s) _ (mkdir_keeps passed q s h)
          (mkdir_loop-keeps cs (passed ++ c ∷ []) q))
    | inr t ↦ rw t (mkdir_loop-keeps cs (passed ++ c ∷ []) q s h)
  ]

  mkdir-There :
      (p : Bytes) (s : F.State)
      → ((F.mkdir p s).0 ≡ ok tt) ⊎ ((F.mkdir p s).0 ≡ err eexist)
      → There F p (F.mkdir p s).1
  mkdir-There p s (inl h) = inl (laws.makes p s h)
  mkdir-There p s (inr h) = laws.exists p s h

  -- What all of it names is there, and what each part before a slash names.
  abbrev Made : Bytes → Bytes → F.State → Type 0
  Made passed cs s =
      There F (passed ++ cs) s × ((b r : Bytes) → cs ≡ b ++ (b'/' ∷ r) → There F (passed ++ b) s)

  Made-cons :
      (passed cs : Bytes) (c : ℕ) (s : F.State)
      → (c ≡ b'/' → There F passed s)
      → Made (passed ++ c ∷ []) cs s
      → Made passed (c ∷ cs) s
  Made-cons passed cs c s slash (whole, parts) = (
    subst (λ (p : Bytes). There F p s) (append_assoc passed (c ∷ []) cs) whole,
    λ b r e. part b r e,
  )
    where
      part : (b r : Bytes) → c ∷ cs ≡ b ++ (b'/' ∷ r) → There F (passed ++ b) s
      part [] r e = subst (λ (p : Bytes). There F p s) (sym (append-nil passed)) (slash (cc e))
      part (x ∷ b) r e =
          let first : c ≡ x = cc e in
          let tail : cs ≡ b ++ (b'/' ∷ r) = cc e in
          subst (λ (p : Bytes). There F p s)
            (append_assoc passed (c ∷ []) b ∙ ap (λ (y : ℕ). passed ++ y ∷ b) first)
            (parts b r tail)

  mkdir_loop-Made :
      (cs passed : Bytes) (s : F.State)
      → (mkdir_loop F passed cs s).0 ≡ ok tt
      → Made passed cs (mkdir_loop F passed cs s).1
  unfolding mkdir_loop
  mkdir_loop-Made [] passed s = λ h.
      let (done, same) = unless_failed-ok (F.mkdir passed s) (λ s'. (ok tt, s')) h in
      subst (λ (r : Call × F.State). Made passed [] r.1) (sym same)
        (
          subst (λ (p : Bytes). There F p (F.mkdir passed s).1) (sym (append-nil passed))
              (mkdir-There passed s done),
          λ b r e.
              absurd
                (omega (arith, ap (λ (l : Bytes). length l) e, length-append {0} b (b'/' ∷ r))),
        )
  mkdir_loop-Made (c ∷ cs) passed s = elim (Bool-cases (c == b'/')) [
    | inl t ↦ rw t (λ h.
        let rest = mkdir_loop F (passed ++ c ∷ []) cs in
        let (done, same) = unless_failed-ok (F.mkdir passed s) rest h in
        let s1 = (F.mkdir passed s).1 in
        let there = mkdir_loop-keeps cs (passed ++ c ∷ []) passed s1 (mkdir-There passed s done) in
        let fine = ap (λ (r : Call × F.State). r.0) (sym same) ∙ h in
        subst (λ (r : Call × F.State). Made passed (c ∷ cs) r.1) (sym same)
          (Made-cons passed cs c (rest s1).1 (λ _. there)
            (mkdir_loop-Made cs (passed ++ c ∷ []) s1 fine)))
    | inr t ↦ rw t (λ h.
        Made-cons passed cs c _ (λ e. absurd (cc (sym t ∙ (==_iff c b'/').1 e)))
          (mkdir_loop-Made cs (passed ++ c ∷ []) s h))
  ]

  mkdir_from-Made :
      (path : Bytes) (s : F.State)
      → (mkdir_from F path s).0 ≡ ok tt
      → There F path (mkdir_from F path s).1
        × ((b r : Bytes)
            → path ≡ b ++ (b'/' ∷ r)
            → 0 < length b
            → There F b (mkdir_from F path s).1)
  mkdir_from-Made [] s h =
      let (whole, parts) = mkdir_loop-Made [] [] s h in (whole, λ b r e some_bytes. parts b r e)
  mkdir_from-Made (c ∷ cs) s h =
      let (whole, parts) = mkdir_loop-Made cs (c ∷ []) s h in
      (whole, part (mkdir_loop F (c ∷ []) cs s).1 parts)
    where
      part :
          (s' : F.State)
          → ((b r : Bytes) → cs ≡ b ++ (b'/' ∷ r) → There F (c ∷ b) s')
          → (b r : Bytes) → c ∷ cs ≡ b ++ (b'/' ∷ r)
          → 0 < length b
          → There F b s'
      part s' parts [] r e some_bytes = absurd (omega (arith, some_bytes))
      part s' parts (x ∷ b) r e some_bytes =
          let first : c ≡ x = cc e in
          let tail : cs ≡ b ++ (b'/' ∷ r) = cc e in
          subst (λ (y : ℕ). There F (y ∷ b) s') first (parts b r tail)

  -- A part of the path ends at a slash or at the end.
  abbrev pub IsEnd : Bytes → Type 0
  IsEnd [] = Unit
  IsEnd (c ∷ r) = c ≡ b'/'

  part-There :
      (path b r : Bytes) (s : F.State)
      → There F path s × ((b' r' : Bytes) → path ≡ b' ++ (b'/' ∷ r') → 0 < length b' → There F b' s)
      → path ≡ b ++ r
      → IsEnd r
      → 0 < length b
      → There F b s
  part-There path b [] s (whole, parts) e end some_bytes =
      subst (λ (p : Bytes). There F p s) (e ∙ append-nil b) whole
  part-There path b (c ∷ r) s (whole, parts) e end some_bytes =
      parts b r (e ∙ ap (λ (x : ℕ). b ++ x ∷ r) end) some_bytes

  -- What lay there before lies there still.
  folder_or_before :
      (path q : Bytes) (s : F.State)
      → There F q (mkdir_from F path s).1
      → F.IsFolder q (mkdir_from F path s).1 ⊎ F.IsOther q s
  folder_or_before path q s (inl h) = inl h
  folder_or_before path q s (inr h) = inr (mkdir_from-Other path q s h)

  -- When mkdir_p returns 0, a folder lies at the path, without a slash at its end, and at each part of
  -- it that is not empty and ends before a slash, except where something that is no folder lay there
  -- before the call: EEXIST is also what mkdir(2) gives for a file.
  pub mkdir_p-There :
      (path b r : Bytes) (s : F.State)
      → without_slash path ≡ b ++ r
      → IsEnd r
      → 0 < length b
      → (mkdir_p F path s).0 ≡ ok tt
      → F.IsFolder b (mkdir_p F path s).1 ⊎ F.IsOther b s
  unfolding mkdir_p
  mkdir_p-There path b r s e end some_bytes = elim (Bool-cases (length path == 0)) [
    | inl t ↦ absurd (
        omega (
          arith,
          some_bytes,
          length-without_slash path,
          (==_iff (length path) 0).0 t,
          ap (λ (l : Bytes). length l) e,
          length-append {0} b r,
        ))
    | inr f ↦ elim (Bool-cases (leb 4096 (length path))) [
      | inl t ↦ rw (f, t) (λ h. absurd (err-ne-ok h))
      | inr t ↦
          rw (f, t)
            (λ h. folder_or_before (without_slash path) b s (
              part-There (without_slash path) b r _ (mkdir_from-Made (without_slash path) s h) e end
                some_bytes))
    ]
  ]
