-- ===== src/Session/ClientLaws.antt =====
-- caller/client.c: that the client ends on every stream, and what it does in a session without
-- failures.
use dumbos_dumbos.Base.{
  ℕ, zero, suc, ◌+◌, ◌≤◌, ◌<◌, ◌≡◌, refl, ap, ◌∙◌, sym, subst, List, [], ◌∷◌, ◌++◌, append_assoc,
  append-nil, arith, Bytes, Result, ok, err, length, length-append, All, Option, some, Bool-cases,
  inl, inr, leb, c_str,
}
use dumbos_dumbos.Stream.{
  read_loop, Conn, ReadEvent, M, after, pure, htons, read_all, read_ushort, write_ushort,
  malloc_read_string, write_string, max_string,
}
use dumbos_dumbos.Stream.Read.{contents, read_loop-Sound, Sound}
use dumbos_dumbos.Stream.Framing.{frame}
use dumbos_dumbos.Session.{version_string, version_major, version_minor, version_patch}
use dumbos_dumbos.Session.Client.{
  Talk, send_version, send_each, send_args, got_code, got_message, read_messages, sent_args,
  got_verdict, sent_version, client,
}
use dumbos_dumbos.Session.Live.{
  IsLive, Yields, after-Yields, read_ushort-KeepsOut, malloc_read_string-KeepsOut,
  write_ushort-Yields, write_string-Yields, wire, IsMessage, hello,
}

-- A read that succeeds took at least `n` bytes from the stream.
abbrev Takes : {A : Type 0} → ℕ → Conn → Result A × Conn → Type 0
Takes n c (ok a, d) = length (contents d.incoming) + n ≤ length (contents c.incoming)
Takes n c (err e, d) = Unit

read_all-Takes : (n : ℕ) (c : Conn) → Takes n c (read_all n c)
unfolding read_all
read_all-Takes n c = taken (read_loop n c.incoming) (read_loop-Sound n c.incoming)
  where
    taken :
        (r : Result Bytes × List ReadEvent)
        → Sound n c.incoming r
        → Takes n c (r.0, record c { incoming = r.1 })
    taken (ok bs, es) (len, joined) =
        omega (arith, length-append {0} bs (contents es), len, ap (λ (l : Bytes). length l) joined)
    taken (err e, es) h = tt

after-Takes :
    {A B : Type 0} (n : ℕ) (c : Conn) (r : Result A × Conn) (f : A → M B)
    → Takes n c r
    → ((a : A) (d : Conn) → Takes 0 d (f a d))
    → Takes n c (after r f)
after-Takes n c (ok a, d) f h k = further (f a d) (k a d)
  where
    further : {B : Type 0} (r : Result B × Conn) → Takes 0 d r → Takes n c r
    further (ok b, e) g = omega (arith, g, h)
    further (err x, e) g = tt
after-Takes n c (err e, d) f h k = tt

read_ushort-Takes : (c : Conn) → Takes 2 c (read_ushort c)
unfolding read_ushort
read_ushort-Takes c = after-Takes 2 c (read_all 2 c) _ (read_all-Takes 2 c) (λ a d. omega arith)

malloc_read_string-Takes : (c : Conn) → Takes 2 c (malloc_read_string c)
unfolding malloc_read_string
malloc_read_string-Takes c = after-Takes 2 c (read_ushort c) _ (read_ushort-Takes c) (λ len d.
    elim (Bool-cases (leb max_string len)) [
      | inl e ↦ rw e tt
      | inr e ↦ rw e (
          after-Takes 0 d (read_all len d) (λ dest. pure (c_str dest))
            (less len d (read_all len d) (read_all-Takes len d)) (λ a d'. omega arith))
    ])
  where
    less : (n : ℕ) (d : Conn) (r : Result Bytes × Conn) → Takes n d r → Takes 0 d r
    less n d (ok a, d') h = omega (arith, h)
    less n d (err x, d') h = tt

-- A run that ends, and sent nothing.
abbrev pub Ends : Conn → Option (Talk × Conn) → Type 0
Ends c r = (t : Talk) × (d : Conn) × (r ≡ some (t, d)) × (d.sent ≡ c.sent)

pub read_messages-Ends :
    (fuel : ℕ) (printed : List Bytes) (c : Conn)
    → length (contents c.incoming) < fuel
    → Ends c (read_messages fuel printed c)
unfolding read_messages got_message got_code
read_messages-Ends zero printed c h = absurd (omega (arith, h))
read_messages-Ends (suc fuel) printed c h =
    message (malloc_read_string c) (malloc_read_string-Takes c) (malloc_read_string-KeepsOut c).0
      (λ printed d less. read_messages-Ends fuel printed d (omega (arith, less, h)))
  where
    code :
        (printed : List Bytes) (r : Result ℕ × Conn)
        → r.1.sent ≡ c.sent
        → Ends c (got_code printed r)
    code printed (ok n, d) s = (record { printed = printed; status = n }, d, refl, s)
    code printed (err e, d) s = (record { printed = printed; status = e }, d, refl, s)

    message :
        (r : Result Bytes × Conn)
        → Takes 2 c r
        → r.1.sent ≡ c.sent
        → ((printed : List Bytes) (d : Conn)
            → length (contents d.incoming) < length (contents c.incoming)
            → Ends d (read_messages fuel printed d))
        → Ends c (got_message (read_messages fuel) printed r)
    message (err e, d) t s next = (record { printed = printed; status = e }, d, refl, s)
    message (ok [], d) t s next = code printed (read_ushort d) ((read_ushort-KeepsOut d).0 ∙ s)
    message (ok (b ∷ m), d) t s next =
        let (talk, e, done, same) = next (printed ++ (b ∷ m) ∷ []) d (omega (arith, t)) in
        (talk, e, done, same ∙ s)

abbrev pub Finishes : Option (Talk × Conn) → Type 0
Finishes r = (t : Talk) × (d : Conn) × (r ≡ some (t, d))

-- The client ends on every connection on which finitely many bytes and failures come, whatever they
-- are: the fuel that it is given is enough.
pub client_total : (args : List Bytes) (c : Conn) → Finishes (client args c)
unfolding client sent_version got_verdict sent_args
client_total args c = version (send_version c)
  where
    messages : (r : Result (Unit {0}) × Conn) → Finishes (sent_args r)
    messages (ok _, d) =
        let (t, e, done, _) =
          read_messages-Ends (suc (length (contents d.incoming))) [] d (omega arith) in
        (t, e, done)
    messages (err x, d) = (record { printed = []; status = x }, d, refl)

    verdict : (r : Result ℕ × Conn) → Finishes (got_verdict args r)
    verdict (ok zero, d) = messages (send_args args d)
    verdict (ok (suc n), d) = (record { printed = []; status = suc n }, d, refl)
    verdict (err x, d) = (record { printed = []; status = x }, d, refl)

    version : (r : Result (Unit {0}) × Conn) → Finishes (sent_version args r)
    version (ok _, d) = verdict (read_ushort d)
    version (err x, d) = (record { printed = []; status = x }, d, refl)

pub send_version-Yields :
    (inc out : Bytes) (c : Conn)
    → IsLive c inc out
    → Yields tt inc (out ++ hello []) (send_version c)
unfolding send_version
send_version-Yields inc out c l =
    after-Yields tt tt _ _ inc _ (write_string version_string c) _
      (write_string-Yields inc out c version_string (omega arith) l)
      (λ c1 l1.
        after-Yields tt tt _ _ inc _ (write_ushort version_major c1) _
          (write_ushort-Yields inc _ c1 version_major l1)
          (λ c2 l2.
            after-Yields tt tt _ _ inc _ (write_ushort version_minor c2) _
              (write_ushort-Yields inc _ c2 version_minor l2)
              (λ c3 l3.
                subst (λ (b : Bytes). Yields tt inc b (write_ushort version_patch c3)) joined
                  (write_ushort-Yields inc _ c3 version_patch l3))))
  where
    joined :
        (((out ++ frame version_string) ++ htons version_major) ++ htons version_minor)
          ++ htons version_patch
        ≡ out ++ hello []
    joined =
        append_assoc ((out ++ frame version_string) ++ htons version_major) (htons version_minor)
          (htons version_patch)
        ∙ append_assoc (out ++ frame version_string) (htons version_major)
            (htons version_minor ++ htons version_patch)
        ∙ append_assoc out (frame version_string)
            (htons version_major ++ (htons version_minor ++ htons version_patch))

send_each-Yields :
    (args : List Bytes) (inc out : Bytes) (c : Conn)
    → All IsMessage args
    → IsLive c inc out
    → Yields tt inc (out ++ wire args []) (send_each args c)
unfolding send_each
send_each-Yields [] inc out c h l =
    subst (λ (b : Bytes). Yields tt inc b (ok tt, c)) (sym (append-nil out)) (c, refl, l)
send_each-Yields (a ∷ args) inc out c ((text, short), h) l =
    after-Yields tt tt inc (out ++ frame a) inc (out ++ (frame a ++ wire args []))
      (write_string a c) _ (write_string-Yields inc out c a short l)
      (λ d ld.
        subst (λ (b : Bytes). Yields tt inc b (send_each args d))
          (append_assoc out (frame a) (wire args []))
          (send_each-Yields args inc (out ++ frame a) d h ld))

pub send_args-Yields :
    (args : List Bytes) (inc out : Bytes) (c : Conn)
    → All IsMessage args
    → IsLive c inc out
    → Yields tt inc (out ++ (htons (length args) ++ wire args [])) (send_args args c)
unfolding send_args
send_args-Yields args inc out c h l =
    after-Yields tt tt inc (out ++ htons (length args)) inc _ (write_ushort (length args) c) _
      (write_ushort-Yields inc out c (length args) l)
      (λ d ld.
        subst (λ (b : Bytes). Yields tt inc b (send_each args d))
          (append_assoc out (htons (length args)) (wire args []))
          (send_each-Yields args inc (out ++ htons (length args)) d h ld))
