-- ===== src/Stream/Read.antt =====
-- What read_all returns, and what it leaves in the stream.
use dumbos_dumbos.Base.{
  ℕ, zero, suc, ◌-◌, ◌≤◌, ◌<◌, ◌≡◌, refl, sym, ap, ◌∙◌, inl, inr, false, List, [], ◌∷◌, ◌++◌,
  append_assoc, arith, Bytes, Result, ok, err, leb, Bool-cases, length, take, drop, length-append,
  length-take, take-append-drop, take-append_le, drop-append_le, take-append_ge, drop-append_ge,
  All, leb→le, not_leb, subst,
}
use dumbos_dumbos.Stream.{
  ReadEvent, got, read_interrupted, read_fails, Conn, unread, prepend, read_loop, read_all,
}

-- All bytes that are still to be read.
abbrev pub contents : List ReadEvent → Bytes
contents [] = []
contents (got b bs ∷ es) = (b ∷ bs) ++ contents es
contents (read_interrupted ∷ es) = contents es
contents (read_fails e ∷ es) = contents es

abbrev pub NotFailing : ReadEvent → Type 0
NotFailing (got b bs) = Unit
NotFailing read_interrupted = Unit
NotFailing (read_fails e) = ⊥

-- No read fails; short reads and signals remain.
abbrev pub Healthy : List ReadEvent → Type 0
Healthy = All NotFailing

contents-unread : (bs : Bytes) (es : List ReadEvent) → contents (unread bs es) ≡ bs ++ contents es
contents-unread [] es = refl
contents-unread (b ∷ bs) es = refl

unread-Healthy : (bs : Bytes) (es : List ReadEvent) → Healthy es → Healthy (unread bs es)
unread-Healthy [] es h = h
unread-Healthy (b ∷ bs) es h = (tt, h)

abbrev Complete : ℕ → List ReadEvent → Result Bytes × List ReadEvent → Type 0
Complete len es r =
    (r.0 ≡ ok (take len (contents es))) × (contents r.1 ≡ drop len (contents es)) × Healthy r.1

prepend-Complete :
    (len : ℕ) (c : Bytes) (es : List ReadEvent) (r : Result Bytes × List ReadEvent)
    → length c ≤ len
    → Complete (len - length c) es r
    → ((prepend c r).0 ≡ ok (take len (c ++ contents es)))
      × (contents (prepend c r).1 ≡ drop len (c ++ contents es))
      × Healthy (prepend c r).1
prepend-Complete len c es (ok bs, es') h (e, f, g) =
    (cc (e, take-append_ge len c (contents es) h), cc (f, drop-append_ge len c (contents es) h), g)
prepend-Complete len c es (err x, es') h (e, f, g) = cc e

got-Complete :
    (n b : ℕ) (bs : Bytes) (es : List ReadEvent)
    → leb n (length bs) ≡ false
    → Complete (n - length bs) es (read_loop (n - length bs) es)
    → Complete (suc n) (got b bs ∷ es) (prepend (b ∷ bs) (read_loop (n - length bs) es))
got-Complete n b bs es e ih =
    prepend-Complete (suc n) (b ∷ bs) es (read_loop (n - length bs) es) (ground arith)
      (subst (λ (k : ℕ). Complete k es (read_loop (n - length bs) es)) (omega arith) ih)

read_loop-Complete :
    (len : ℕ) (es : List ReadEvent)
    → Healthy es
    → len ≤ length (contents es)
    → Complete len es (read_loop len es)
unfolding read_loop
read_loop-Complete zero es h fits = (refl, refl, h)
read_loop-Complete (suc n) [] h fits = absurd (omega arith)
read_loop-Complete (suc n) (read_interrupted ∷ es) (_, h) fits =
    read_loop-Complete (suc n) es h fits
read_loop-Complete (suc n) (read_fails e ∷ es) h fits = absurd h.0
read_loop-Complete (suc n) (got b bs ∷ es) (_, h) fits = elim (Bool-cases (leb n (length bs))) [
  | inl e ↦ rw e (
    ap (λ (l : Bytes). ok (b ∷ l)) (sym (take-append_le n bs (contents es) (ground arith))),
    contents-unread (drop n bs) es ∙ sym (drop-append_le n bs (contents es) (ground arith)),
    unread-Healthy (drop n bs) es h,
  )
  | inr e ↦ rw e (
      got-Complete n b bs es e (
        read_loop-Complete (n - length bs) es h
          (omega (arith, length-append {0} bs (contents es), not_leb n (length bs) e))))
]

-- What a run leaves: on success, as many bytes as were asked for, which with what is left are the
-- bytes of the stream in their order.
abbrev pub Sound : ℕ → List ReadEvent → Result Bytes × List ReadEvent → Type 0
Sound len es (ok bs, es') = (length bs ≡ len) × (bs ++ contents es' ≡ contents es)
Sound len es (err e, es') = Unit

prepend-Sound :
    (n b : ℕ) (bs : Bytes) (es : List ReadEvent) (r : Result Bytes × List ReadEvent)
    → length bs < n
    → Sound (n - length bs) es r
    → Sound (suc n) (got b bs ∷ es) (prepend (b ∷ bs) r)
prepend-Sound n b bs es (ok cs, es') h (len, eq) = (
  omega (arith, length-append {0} bs cs),
  ap (λ (l : Bytes). b ∷ l) (append_assoc bs cs (contents es') ∙ ap (λ (l : Bytes). bs ++ l) eq),
)
prepend-Sound n b bs es (err e, es') h p = tt

pub read_loop-Sound : (len : ℕ) (es : List ReadEvent) → Sound len es (read_loop len es)
unfolding read_loop
read_loop-Sound zero es = (refl, refl)
read_loop-Sound (suc n) [] = tt
read_loop-Sound (suc n) (read_interrupted ∷ es) = read_loop-Sound (suc n) es
read_loop-Sound (suc n) (read_fails e ∷ es) = tt
read_loop-Sound (suc n) (got b bs ∷ es) = elim (Bool-cases (leb n (length bs))) [
  | inl e ↦ rw e (
    omega (arith, length-take {0} n bs, leb→le n (length bs) e),
    ap (λ (l : Bytes). b ∷ l)
        (ap (λ (l : Bytes). take n bs ++ l) (contents-unread (drop n bs) es)
          ∙ sym (append_assoc (take n bs) (drop n bs) (contents es))
          ∙ ap (λ (l : Bytes). l ++ contents es) (take-append-drop n bs)),
  )
  | inr e ↦ rw e (
      prepend-Sound n b bs es (read_loop (n - length bs) es) (not_leb n (length bs) e)
        (read_loop-Sound (n - length bs) es))
]

-- When the reads do not fail and the stream holds as many bytes, read_all returns them in order,
-- whatever the sizes of the reads and the signals between them, and leaves the rest.
pub read_all_complete :
    (len : ℕ) (c : Conn)
    → Healthy c.incoming
    → len ≤ length (contents c.incoming)
    → ((read_all len c).0 ≡ ok (take len (contents c.incoming)))
      × (contents (read_all len c).1.incoming ≡ drop len (contents c.incoming))
      × Healthy (read_all len c).1.incoming
unfolding read_all
read_all_complete len c h fits = read_loop-Complete len c.incoming h fits

-- Whatever the reads meet: when read_all succeeds it returns as many bytes as it was asked for, and
-- these with what is left are the bytes of the stream in their order.
pub read_all_sound :
    (len : ℕ) (c : Conn) (bs : Bytes)
    → (read_all len c).0 ≡ ok bs
    → (length bs ≡ len) × (bs ++ contents (read_all len c).1.incoming ≡ contents c.incoming)
unfolding read_all
read_all_sound len c bs h = found (read_loop len c.incoming) (read_loop-Sound len c.incoming) h
  where
    found :
        (r : Result Bytes × List ReadEvent)
        → Sound len c.incoming r
        → r.0 ≡ ok bs
        → (length bs ≡ len) × (bs ++ contents r.1 ≡ contents c.incoming)
    found (ok cs, es') (n, eq) h = ground (arith, n, eq)
    found (err e, es') p h = cc h
