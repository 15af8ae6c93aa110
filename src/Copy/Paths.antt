-- ===== src/Copy/Paths.antt =====
-- The paths that join_path of daemon/mount_copy_ns.c makes: those under different names of a directory
-- are different.
use dumbos_dumbos.Base.{
  ℕ, ◌≡◌, ◌≢◌, ◌⊎◌, inl, inr, refl, sym, ap, ◌∙◌, subst, false, [], ◌∷◌, ◌++◌, append_assoc,
  append-nil, Bytes, ◌==◌, if◌then◌else◌, length, drop, length-append, drop-append, arith, All,
}
use dumbos_dumbos.Daemon.SecretCode.{ends_in_slash}
use dumbos_dumbos.Copy.{slashed, join_path}

-- The name of an entry of a directory: not empty, and without a slash.
abbrev pub IsName : Bytes → Type 0
IsName [] = ⊥
IsName (c ∷ cs) = All (λ (b : ℕ). b ≢ b'/') (c ∷ cs)

-- The path or one below it.
abbrev pub Under : Bytes → Bytes → Type 0
Under p k = (k ≡ p) ⊎ ((r : Bytes) × (k ≡ slashed p ++ r))

ends_in_slash-append :
    (xs : Bytes) (c : ℕ) (cs : Bytes) → ends_in_slash (xs ++ c ∷ cs) ≡ ends_in_slash (c ∷ cs)
ends_in_slash-append [] c cs = refl
ends_in_slash-append (x ∷ []) c cs = refl
ends_in_slash-append (x ∷ y ∷ xs) c cs = ends_in_slash-append (y ∷ xs) c cs

ends_in_slash_name : (c : ℕ) (cs : Bytes) → IsName (c ∷ cs) → ends_in_slash (c ∷ cs) ≡ false
ends_in_slash_name c [] (h, _) = ground arith
ends_in_slash_name c (d ∷ cs) (_, h) = ends_in_slash_name d cs h

slashed-join_path :
    (p n : Bytes) → IsName n → slashed (join_path p n) ≡ slashed p ++ (n ++ b'/' ∷ [])
unfolding join_path
slashed-join_path p [] h = absurd h
slashed-join_path p (c ∷ cs) h =
    rw (ends_in_slash-append (slashed p) c cs, ends_in_slash_name c cs h)
      (append_assoc (slashed p) (c ∷ cs) (b'/' ∷ []))

-- What stands behind a name in a path below it.
abbrev IsTail : Bytes → Type 0
IsTail [] = Unit
IsTail (c ∷ cs) = c ≡ b'/'

split_path :
    (p n k : Bytes)
    → IsName n
    → Under (join_path p n) k
    → (t : Bytes) × IsTail t × (k ≡ slashed p ++ (n ++ t))
unfolding join_path
split_path p n k h (inl e) = ([], tt, e ∙ ap (λ (x : Bytes). slashed p ++ x) (sym (append-nil n)))
split_path p n k h (inr (r, e)) = (
  b'/' ∷ r,
  refl,
  e
      ∙ ap (λ (x : Bytes). x ++ r) (slashed-join_path p n h)
      ∙ append_assoc (slashed p) (n ++ b'/' ∷ []) r
      ∙ ap (λ (x : Bytes). slashed p ++ x) (append_assoc n (b'/' ∷ []) r),
)

pub Under-join_path : (p n k : Bytes) → IsName n → Under (join_path p n) k → Under p k
Under-join_path p n k h u = let (t, _, e) = split_path p n k h u in inr (n ++ t, e)

pub not-Under-join_path : (p n : Bytes) → IsName n → Under (join_path p n) p → ⊥
not-Under-join_path p [] h u = absurd h
not-Under-join_path p (c ∷ cs) h u =
    let (t, _, e) = split_path p (c ∷ cs) p h u in
    let slash : Bytes = if ends_in_slash p then [] else b'/' ∷ [] in
    absurd
      (omega (arith, ap length e, length-append (slashed p) (c ∷ cs ++ t), length-append p slash))

before_slash : Bytes → Bytes
before_slash [] = []
before_slash (c ∷ cs) = let rest = before_slash cs in if c == b'/' then [] else c ∷ rest

before_slash-append :
    (n t : Bytes) → All (λ (b : ℕ). b ≢ b'/') n → IsTail t → before_slash (n ++ t) ≡ n
unfolding before_slash
before_slash-append [] [] _ _ = refl
before_slash-append [] (c ∷ t) _ e = ground arith
before_slash-append (c ∷ n) t (h, hs) e = ground (arith, before_slash-append n t hs e)

IsName-All : (n : Bytes) → IsName n → All (λ (b : ℕ). b ≢ b'/') n
IsName-All [] h = tt
IsName-All (c ∷ n) h = h

name_of_path :
    (p n k : Bytes)
    → IsName n
    → Under (join_path p n) k
    → before_slash (drop (length (slashed p)) k) ≡ n
name_of_path p n k h u =
    let (t, tail, e) = split_path p n k h u in
    subst (λ (x : Bytes). before_slash (drop (length (slashed p)) x) ≡ n) (sym e)
      (ap before_slash (drop-append (length (slashed p)) (slashed p) (n ++ t) refl)
        ∙ before_slash-append n t (IsName-All n h) tail)

-- Nothing lies under two entries of a directory.
pub Under-apart :
    (p n m k : Bytes)
    → IsName n
    → IsName m
    → Under (join_path p n) k
    → Under (join_path p m) k
    → n ≡ m
Under-apart p n m k hn hm un um = sym (name_of_path p n k hn un) ∙ name_of_path p m k hm um
