-- ===== src/Stream/Framing.antt =====
-- The framing of shorts and strings: what one side writes the other side reads.
use dumbos_dumbos.Base.{
  ℕ, ◌+◌, ◌≤◌, ◌<◌, ◌≡◌, refl, ap, ◌∙◌, [], ◌++◌, append_assoc, arith, Bytes, Result, ok, err,
  length, take, drop, length-append, take-append, drop-append, IsText, c_str_self, c_str,
  lt→not_leb, le→not_ltb, subst,
}
use dumbos_dumbos.Base.Errno.{eoverflow}
use dumbos_dumbos.Stream.{
  Conn, M, after, pure, read_all, write_all, ntohs, htons, read_ushort, write_ushort,
  malloc_read_string, write_string, max_string,
}
use dumbos_dumbos.Stream.Read.{contents, Healthy, read_all_complete}
use dumbos_dumbos.Stream.Write.{Writable, write_all_complete}

-- The bytes of a string on the wire: its length in two bytes, then the string.
abbrev pub frame : Bytes → Bytes
frame s = htons (length s) ++ s

pub ntohs-htons : (n : ℕ) (rest : Bytes) → n < 65536 → ntohs (htons n ++ rest) ≡ n
ntohs-htons n rest h = omega arith

-- The result of a computation that succeeds with `a` and leaves a healthy stream holding `rest`.
abbrev pub Reads : {A : Type 0} → A → Bytes → Result A × Conn → Type 0
Reads a rest r = (r.0 ≡ ok a) × (contents r.1.incoming ≡ rest) × Healthy r.1.incoming

after-Reads :
    {A B : Type 0} (a : A) (b : B) (mid rest : Bytes) (r : Result A × Conn) (f : A → M B)
    → Reads a mid r
    → ((c : Conn) → contents c.incoming ≡ mid → Healthy c.incoming → Reads b rest (f a c))
    → Reads b rest (after r f)
after-Reads a b mid rest (ok x, c) f (e, k, h) next =
    let same : a ≡ x = cc e in subst (λ y. Reads b rest (f y c)) same (next c k h)
after-Reads a b mid rest (err x, c) f (e, k, h) next = cc e

pub read_all-Reads :
    (bs rest : Bytes) (c : Conn)
    → contents c.incoming ≡ bs ++ rest
    → Healthy c.incoming
    → Reads bs rest (read_all (length bs) c)
read_all-Reads bs rest c e h =
    let fits : length bs ≤ length (contents c.incoming) =
      omega (arith, length-append {0} bs rest, ap (λ (l : Bytes). length l) e) in
    let (r, left, healthy) = read_all_complete (length bs) c h fits in
    (
      r
          ∙ ap (λ (l : Bytes). ok (take (length bs) l)) e
          ∙ ap ok (take-append (length bs) bs rest refl),
      left ∙ ap (λ (l : Bytes). drop (length bs) l) e ∙ drop-append (length bs) bs rest refl,
      healthy,
    )

pub read_ushort-Reads :
    (n : ℕ) (rest : Bytes) (c : Conn)
    → n < 65536
    → contents c.incoming ≡ htons n ++ rest
    → Healthy c.incoming
    → Reads n rest (read_ushort c)
unfolding read_ushort
read_ushort-Reads n rest c fits e h =
    after-Reads (htons n) n rest rest (read_all 2 c) (λ val. pure (ntohs val))
      (read_all-Reads (htons n) rest c e h) (λ d k hd. (ap ok (ntohs-htons n [] fits), k, hd))

pub malloc_read_string-Reads :
    (s rest : Bytes) (c : Conn)
    → IsText s
    → length s < max_string
    → contents c.incoming ≡ frame s ++ rest
    → Healthy c.incoming
    → Reads s rest (malloc_read_string c)
unfolding malloc_read_string
malloc_read_string-Reads s rest c text short e h =
    after-Reads (length s) s (s ++ rest) rest (read_ushort c) _
      (read_ushort-Reads (length s) (s ++ rest) c (omega arith) e h)
      (λ d k hd. rw (lt→not_leb max_string (length s) short) (
        after-Reads s s rest rest (read_all (length s) d) (λ dest. pure (c_str dest))
          (read_all-Reads s rest d k hd) (λ d' k' h'. (ap ok (c_str_self s text), k', h'))))

-- The result of a computation that succeeds and has sent `out` behind what was sent before.
abbrev pub Writes : Bytes → Conn → Result (Unit {0}) × Conn → Type 0
Writes out c r = (r.0 ≡ ok tt) × (r.1.sent ≡ c.sent ++ out) × Writable r.1.outgoing

pub after-Writes :
    (out more : Bytes) (c : Conn) (r : Result (Unit {0}) × Conn) (k : M (Unit {0}))
    → Writes out c r
    → ((d : Conn) → Writable d.outgoing → Writes more d (k d))
    → Writes (out ++ more) c (after r (λ _. k))
after-Writes out more c (ok x, d) k (e, sent, w) next =
    let (e', sent', w') = next d w in
    (e', sent' ∙ ap (λ (l : Bytes). l ++ more) sent ∙ append_assoc c.sent out more, w')
after-Writes out more c (err x, d) k (e, sent, w) next = cc e

pub write_ushort-Writes :
    (n : ℕ) (c : Conn) → Writable c.outgoing → Writes (htons n) c (write_ushort n c)
unfolding write_ushort
write_ushort-Writes n c w = write_all_complete (htons n) c w

pub write_string-Writes :
    (s : Bytes) (c : Conn)
    → length s < max_string
    → Writable c.outgoing
    → Writes (frame s) c (write_string s c)
unfolding write_string
write_string-Writes s c short w =
    rw (le→not_ltb 65535 (length s + 1) (omega arith), lt→not_leb max_string (length s) short)
      (after-Writes (htons (length s)) s c (write_ushort (length s) c) (write_all s)
        (write_ushort-Writes (length s) c w) (λ d wd. write_all_complete s d wd))

-- A string without NUL that is shorter than MAX_STRING is received as it was sent: when the writes
-- of the sender and the reads of the receiver do not fail, the bytes that write_string puts on the
-- wire are read back by malloc_read_string as the same string, however the bytes are split by the
-- two sides, and the bytes that follow stay in the stream.
pub malloc_read_string-write_string :
    (s rest : Bytes) (sender receiver : Conn)
    → IsText s
    → length s < max_string
    → Writable sender.outgoing
    → sender.sent ≡ []
    → Healthy receiver.incoming
    → contents receiver.incoming ≡ (write_string s sender).1.sent ++ rest
    → ((write_string s sender).0 ≡ ok tt)
      × ((malloc_read_string receiver).0 ≡ ok s)
      × (contents (malloc_read_string receiver).1.incoming ≡ rest)
malloc_read_string-write_string s rest sender receiver text short w fresh h e =
    let (done, sent, _) = write_string-Writes s sender short w in
    let on_wire : contents receiver.incoming ≡ frame s ++ rest =
      e ∙ ap (λ (l : Bytes). l ++ rest) (sent ∙ ap (λ (l : Bytes). l ++ frame s) fresh) in
    let (r, left, _) = malloc_read_string-Reads s rest receiver text short on_wire h in
    (done, r, left)

-- A string of MAX_STRING bytes or more is refused with EOVERFLOW and nothing is sent.
pub write_string_too_long :
    (s : Bytes) (c : Conn) → max_string ≤ length s → write_string s c ≡ (err eoverflow, c)
unfolding write_string
write_string_too_long s c h = ground arith

-- A short is received as it was sent, however its two bytes are split.
pub read_ushort-write_ushort :
    (n : ℕ) (rest : Bytes) (sender receiver : Conn)
    → n < 65536
    → Writable sender.outgoing
    → sender.sent ≡ []
    → Healthy receiver.incoming
    → contents receiver.incoming ≡ (write_ushort n sender).1.sent ++ rest
    → ((read_ushort receiver).0 ≡ ok n) × (contents (read_ushort receiver).1.incoming ≡ rest)
read_ushort-write_ushort n rest sender receiver fits w fresh h e =
    let (_, sent, _) = write_ushort-Writes n sender w in
    let on_wire : contents receiver.incoming ≡ htons n ++ rest =
      e ∙ ap (λ (l : Bytes). l ++ rest) (sent ∙ ap (λ (l : Bytes). l ++ htons n) fresh) in
    let (r, left, _) = read_ushort-Reads n rest receiver fits on_wire h in (r, left)
