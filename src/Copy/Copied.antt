-- ===== src/Copy/Copied.antt =====
-- What a copied tree is on a disk: the definitions of what lies at a path.
use dumbos_dumbos.Base.{
  ◌≡◌, ◌≢◌, refl, sym, subst, ◌∙◌, Bool, true, false, some, Bytes, ok, err, inl,
}
use dumbos_dumbos.Copy.{
  Node, gone, regular, symlink, directory, special, Listing, ends, entry, file, link, folder,
  device, Disk, join_path, contents,
}
use dumbos_dumbos.Copy.Tree.{is_dot}
use dumbos_dumbos.Copy.Paths.{IsName, Under, Under-join_path, not-Under-join_path, Under-apart}
use dumbos_dumbos.Copy.Frame.{IsNamed, AreNamed}

-- No entry has the name.
abbrev pub IsAbsent : Bytes → Listing → Type 0
IsAbsent name (ends r) = Unit
IsAbsent name (entry other node l) = (name ≢ other) × IsAbsent name l

-- No directory has two entries of one name.
unfoldable mutual
  pub IsUnique : Node → Type 0
  IsUnique (directory d l) = AreUnique l
  IsUnique (gone e) = Unit
  IsUnique (regular f) = Unit
  IsUnique (symlink size target) = Unit
  IsUnique special = Unit

  pub AreUnique : Listing → Type 0
  AreUnique (ends r) = Unit
  AreUnique (entry name node l) = IsAbsent name l × IsUnique node × AreUnique l

-- The entries for the directory itself and its parent are no part of the tree.
abbrev pub Unless : Bool → Type 0 → Type 0
Unless true P = Unit
Unless false P = P

pub Unless_map : {P Q : Type 0} (b : Bool) → (P → Q) → Unless b P → Unless b Q
Unless_map true f u = tt
Unless_map false f u = f u

module _ (D : Disk) where
  -- What is at the path of the disk is the node: the bytes of a file, the target of a link, a directory
  -- with all its entries.
  unfoldable mutual
    pub IsCopied : Node → Bytes → D.State → Type 0
    IsCopied (gone e) p s = ⊥
    IsCopied (regular f) p s = D.at s p ≡ some (file (contents f.reads))
    IsCopied (symlink size (ok t)) p s = D.at s p ≡ some (link t)
    IsCopied (symlink size (err e)) p s = ⊥
    IsCopied special p s = ⊥
    IsCopied (directory d l) p s = (D.at s p ≡ some folder) × AreCopied l p s

    pub AreCopied : Listing → Bytes → D.State → Type 0
    AreCopied (ends r) p s = Unit
    AreCopied (entry name node l) p s =
        Unless (is_dot name) (IsCopied node (join_path p name) s) × AreCopied l p s

  abbrev pub AreSame : Bytes → D.State → D.State → Type 0
  AreSame p s s' = (k : Bytes) → Under p k → D.at s' k ≡ D.at s k

  -- No device lies at the path or below it; the same of the paths of all entries.
  abbrev pub IsPlain : Bytes → D.State → Type 0
  IsPlain p s = (k : Bytes) → Under p k → D.at s k ≢ some device

  abbrev pub ArePlain : Listing → Bytes → D.State → Type 0
  ArePlain (ends r) p s = Unit
  ArePlain (entry name node l) p s = IsPlain (join_path p name) s × ArePlain l p s

  -- Making the directory does not change what lies below it.
  pub IsPlain-ArePlain :
      (l : Listing) (p : Bytes) (s s' : D.State)
      → AreNamed l
      → ((k : Bytes) → k ≢ p → D.at s' k ≡ D.at s k)
      → IsPlain p s
      → ArePlain l p s'
  unfolding IsNamed
  IsPlain-ArePlain (ends r) p s s' named same plain = tt
  IsPlain-ArePlain (entry name node l) p s s' (hn, _, hl) same plain = (
    λ k u e. plain k (Under-join_path p name k hn u) (
        sym (
          same k (λ eq.
            not-Under-join_path p name hn (subst (λ (q : Bytes). Under (join_path p name) q) eq u)))
        ∙ e),
    IsPlain-ArePlain l p s s' hl same plain,
  )

  -- Copying one entry does not change what lies at the others.
  pub ArePlain-beside :
      (l : Listing) (p name : Bytes) (s s' : D.State)
      → IsName name
      → AreNamed l
      → IsAbsent name l
      → ((k : Bytes) → (Under (join_path p name) k → ⊥) → D.at s' k ≡ D.at s k)
      → ArePlain l p s
      → ArePlain l p s'
  unfolding IsNamed
  ArePlain-beside (ends r) p name s s' hn named absent same plain = tt
  ArePlain-beside (entry other node l) p name s s' hn (ho, _, hl) (ne, absent) same (h, plain) = (
    λ k u e. h k u (sym (same k (λ v. ne (Under-apart p name other k hn ho v u))) ∙ e),
    ArePlain-beside l p name s s' hn hl absent same plain,
  )

  mutual
    unfolding IsCopied IsNamed

    pub IsCopied-AreSame :
        (node : Node) (p : Bytes) (s s' : D.State)
        → IsNamed node
        → AreSame p s s'
        → IsCopied node p s
        → IsCopied node p s'
    IsCopied-AreSame (gone e) p s s' named same c = c
    IsCopied-AreSame (regular f) p s s' named same c = same p (inl refl) ∙ c
    IsCopied-AreSame (symlink size (ok t)) p s s' named same c = same p (inl refl) ∙ c
    IsCopied-AreSame (symlink size (err e)) p s s' named same c = c
    IsCopied-AreSame special p s s' named same c = c
    IsCopied-AreSame (directory d l) p s s' named same (c, cs) =
        (same p (inl refl) ∙ c, AreCopied-AreSame l p s s' named same cs)

    pub AreCopied-AreSame :
        (l : Listing) (p : Bytes) (s s' : D.State)
        → AreNamed l
        → AreSame p s s'
        → AreCopied l p s
        → AreCopied l p s'
    AreCopied-AreSame (ends r) p s s' named same c = tt
    AreCopied-AreSame (entry name node l) p s s' (hn, hnode, hl) same (c, cs) = (
      Unless_map (is_dot name)
          (IsCopied-AreSame node (join_path p name) s s' hnode
            (λ k u. same k (Under-join_path p name k hn u)))
          c,
      AreCopied-AreSame l p s s' hl same cs,
    )
