-- ===== src/Stream/Write.antt =====
-- What write_all sends.
use dumbos_dumbos.Base.{
  zero, suc, ◌<◌, ◌≡◌, refl, ap, ◌∙◌, List, [], ◌∷◌, ◌++◌, append_assoc, append-nil, arith, Bytes,
  Result, ok, err, take, drop, take-append-drop, All, subst,
}
use dumbos_dumbos.Stream.{
  WriteEvent, accepts, write_interrupted, write_fails, Conn, record_sent, write_loop, write_all,
}

abbrev pub Progresses : WriteEvent → Type 0
Progresses (accepts n) = 0 < n
Progresses write_interrupted = Unit
Progresses (write_fails e) = ⊥

-- No write fails or takes nothing; short writes and signals remain.
abbrev pub Writable : List WriteEvent → Type 0
Writable = All Progresses

-- What was taken is all of the buffer on success, and the beginning of it on failure.
abbrev Prefix : Bytes → Result (Unit {0}) × Bytes × List WriteEvent → Type 0
Prefix buf (ok _, taken, es) = taken ≡ buf
Prefix buf (err e, taken, es) = (rest : Bytes) × (taken ++ rest ≡ buf)

record_sent-Prefix :
    (c d : Bytes) (r : Result (Unit {0}) × Bytes × List WriteEvent)
    → Prefix d r
    → Prefix (c ++ d) (record_sent c r)
record_sent-Prefix c d (ok _, taken, es) h = ap (λ (l : Bytes). c ++ l) h
record_sent-Prefix c d (err e, taken, es) (rest, h) =
    (rest, append_assoc c taken rest ∙ ap (λ (l : Bytes). c ++ l) h)

write_loop-Prefix : (buf : Bytes) (es : List WriteEvent) → Prefix buf (write_loop buf es)
unfolding write_loop
write_loop-Prefix [] es = refl
write_loop-Prefix (b ∷ bs) [] = refl
write_loop-Prefix (b ∷ bs) (write_interrupted ∷ es) = write_loop-Prefix (b ∷ bs) es
write_loop-Prefix (b ∷ bs) (write_fails e ∷ es) = (b ∷ bs, refl)
write_loop-Prefix (b ∷ bs) (accepts zero ∷ es) = (b ∷ bs, refl)
write_loop-Prefix (b ∷ bs) (accepts (suc n) ∷ es) =
    subst (λ (l : Bytes). Prefix l (record_sent (b ∷ take n bs) (write_loop (drop n bs) es)))
      (ap (λ (l : Bytes). b ∷ l) (take-append-drop n bs))
      (record_sent-Prefix (b ∷ take n bs) (drop n bs) (write_loop (drop n bs) es)
        (write_loop-Prefix (drop n bs) es))

abbrev Succeeds : Result (Unit {0}) × Bytes × List WriteEvent → Type 0
Succeeds r = (r.0 ≡ ok tt) × Writable r.2

record_sent-Succeeds :
    (c : Bytes) (r : Result (Unit {0}) × Bytes × List WriteEvent)
    → Succeeds r
    → Succeeds (record_sent c r)
record_sent-Succeeds c (r, taken, es) h = h

write_loop-Succeeds :
    (buf : Bytes) (es : List WriteEvent) → Writable es → Succeeds (write_loop buf es)
unfolding write_loop
write_loop-Succeeds [] es h = (refl, h)
write_loop-Succeeds (b ∷ bs) [] h = (refl, tt)
write_loop-Succeeds (b ∷ bs) (write_interrupted ∷ es) (_, h) = write_loop-Succeeds (b ∷ bs) es h
write_loop-Succeeds (b ∷ bs) (write_fails e ∷ es) h = absurd h.0
write_loop-Succeeds (b ∷ bs) (accepts zero ∷ es) h = absurd (omega (arith, h.0))
write_loop-Succeeds (b ∷ bs) (accepts (suc n) ∷ es) (_, h) =
    record_sent-Succeeds (b ∷ take n bs) (write_loop (drop n bs) es)
      (write_loop-Succeeds (drop n bs) es h)

-- When no write fails or takes nothing, write_all succeeds and has sent the buffer behind what was
-- sent before, whatever the sizes of the writes and the signals between them.
pub write_all_complete :
    (buf : Bytes) (c : Conn)
    → Writable c.outgoing
    → ((write_all buf c).0 ≡ ok tt)
      × ((write_all buf c).1.sent ≡ c.sent ++ buf)
      × Writable (write_all buf c).1.outgoing
unfolding write_all
write_all_complete buf c h =
    finish (write_loop buf c.outgoing) (write_loop-Succeeds buf c.outgoing h)
      (write_loop-Prefix buf c.outgoing)
  where
    finish :
        (r : Result (Unit {0}) × Bytes × List WriteEvent)
        → Succeeds r
        → Prefix buf r
        → (r.0 ≡ ok tt) × (c.sent ++ r.1 ≡ c.sent ++ buf) × Writable r.2
    finish (ok _, taken, es) (e, w) p = (e, ap (λ (l : Bytes). c.sent ++ l) p, w)
    finish (err x, taken, es) (e, w) p = cc e

-- Whatever the writes meet, write_all sends the beginning of the buffer behind what was sent
-- before, and when it succeeds it sent the whole buffer.
pub write_all_sound :
    (buf : Bytes) (c : Conn)
    → (rest : Bytes) × ((write_all buf c).1.sent ++ rest ≡ c.sent ++ buf)
      × ((write_all buf c).0 ≡ ok tt → (write_all buf c).1.sent ≡ c.sent ++ buf)
unfolding write_all
write_all_sound buf c = finish (write_loop buf c.outgoing) (write_loop-Prefix buf c.outgoing)
  where
    finish :
        (r : Result (Unit {0}) × Bytes × List WriteEvent)
        → Prefix buf r
        → (rest : Bytes) × ((c.sent ++ r.1) ++ rest ≡ c.sent ++ buf)
          × (r.0 ≡ ok tt → c.sent ++ r.1 ≡ c.sent ++ buf)
    finish (ok u, taken, es) p = (
      [],
      append-nil (c.sent ++ taken) ∙ ap (λ (l : Bytes). c.sent ++ l) p,
      λ _. ap (λ (l : Bytes). c.sent ++ l) p,
    )
    finish (err x, taken, es) (rest, p) =
        (rest, append_assoc c.sent taken rest ∙ ap (λ (l : Bytes). c.sent ++ l) p, λ h. cc h)
