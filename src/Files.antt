-- ===== src/Files.antt =====
-- The files that the server keeps, as an association list from paths to contents. A call on a file
-- fails where the file is missing, or exists under O_EXCL, and in no other way.
use dumbos_dumbos.Base.{
  ◌≡◌, refl, List, [], ◌∷◌, Option, none, some, arith, Bytes, streq, streq_iff, streq_refl,
  if◌then◌else◌, Bool-cases, inl, inr,
}

abbrev pub Files : Type 0
Files = List (Bytes × Bytes)

unfoldable pub lookup : Bytes → Files → Option Bytes
lookup path [] = none
lookup path ((k, v) ∷ fs) = if streq k path then some v else lookup path fs

unfoldable pub insert : Bytes → Bytes → Files → Files
insert path content [] = (path, content) ∷ []
insert path content ((k, v) ∷ fs) =
    if streq k path then (path, content) ∷ fs else (k, v) ∷ insert path content fs

pub lookup-insert :
    (path other content : Bytes) (fs : Files)
    → lookup other (insert path content fs)
      ≡ (if streq path other then some content else lookup other fs)
unfolding lookup insert
lookup-insert path other content [] = refl
lookup-insert path other content ((k, v) ∷ fs) = ground (
  arith,
  streq_iff k path,
  streq_iff path other,
  streq_iff k other,
  lookup-insert path other content fs,
)

pub lookup-insert_self :
    (path content : Bytes) (fs : Files) → lookup path (insert path content fs) ≡ some content
lookup-insert_self path content fs = rw (lookup-insert path path content fs, streq_refl path)

-- The file is there.
abbrev pub Exists : Bytes → Files → Type 0
Exists path fs = (content : Bytes) × (lookup path fs ≡ some content)

pub Exists-insert :
    (path other content : Bytes) (fs : Files)
    → Exists path fs
    → Exists path (insert other content fs)
Exists-insert path other content fs (c, h) = elim (Bool-cases (streq other path)) [
  | inl e ↦ (content, rw (lookup-insert other path content fs, e))
  | inr e ↦ (c, rw (lookup-insert other path content fs, e) h)
]

-- unlink(2).
unfoldable pub delete : Bytes → Files → Files
delete path [] = []
delete path ((k, v) ∷ fs) =
    let rest = delete path fs in if streq k path then rest else (k, v) ∷ rest

pub lookup-delete :
    (path other : Bytes) (fs : Files)
    → lookup other (delete path fs) ≡ (if streq path other then none else lookup other fs)
unfolding lookup delete
lookup-delete path other [] = ground arith
lookup-delete path other ((k, v) ∷ fs) =
    ground (
      arith,
      streq_iff k path,
      streq_iff path other,
      streq_iff k other,
      lookup-delete path other fs,
    )
