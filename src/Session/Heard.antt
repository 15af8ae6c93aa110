-- ===== src/Session/Heard.antt =====
-- caller/client.c: the messages of the daemon as the client reads them.
use dumbos_dumbos.Base.{
  ℕ, zero, suc, ◌≤◌, ◌<◌, ◌≡◌, ap, sym, subst, List, [], ◌∷◌, ◌++◌, append_assoc, append-nil, arith,
  Bytes, Result, ok, length, length-append, All, Option, some,
}
use dumbos_dumbos.Stream.{Conn, htons, read_ushort, malloc_read_string}
use dumbos_dumbos.Stream.Framing.{frame}
use dumbos_dumbos.Session.Client.{Talk, got_code, got_message, read_messages}
use dumbos_dumbos.Session.Live.{
  IsLive, Yields, read_ushort-Yields, malloc_read_string-Yields, wire, IsMessage,
}

-- A message that the client does not take for the last one.
abbrev pub IsLine : Bytes → Type 0
IsLine s = IsMessage s × (0 < length s)

-- The client ends with this talk, and has sent these bytes.
abbrev pub Says : Talk → Bytes → Option (Talk × Conn) → Type 0
Says t out r = (d : Conn) × (r ≡ some (t, d)) × (d.sent ≡ out)

pub via :
    {A : Type 0} (a : A) (mid out out' : Bytes) (t : Talk) (r : Result A × Conn)
    (f : Result A × Conn → Option (Talk × Conn))
    → Yields a mid out r
    → ((d : Conn) → IsLive d mid out → Says t out' (f (ok a, d)))
    → Says t out' (f r)
via {A = A} a mid out out' t r f (d, e, l) k =
    subst (λ (x : Result A × Conn). Says t out' (f x)) (sym e) (k d l)

module _ (code : ℕ) (rest out : Bytes) (fits : code < 65536) where
  -- The messages up to the empty one, then the code.
  pub read_messages-Says :
      (ms printed : List Bytes) (fuel : ℕ) (c : Conn)
      → All IsLine ms
      → length ms < fuel
      → IsLive c (wire ms (frame [] ++ (htons code ++ rest))) out
      → Says (record { printed = printed ++ ms; status = code }) out (read_messages fuel printed c)
  unfolding read_messages got_message got_code
  read_messages-Says ms printed zero c h enough l = absurd (omega (arith, enough))
  read_messages-Says [] printed (suc fuel) c h enough l =
      let t : Talk = record { printed = printed ++ []; status = code } in
      via [] (htons code ++ rest) out out t (malloc_read_string c)
        (got_message (read_messages fuel) printed)
        (malloc_read_string-Yields (htons code ++ rest) out c [] tt (omega arith) l)
        (λ d ld.
          via code rest out out t (read_ushort d) (got_code printed)
            (read_ushort-Yields rest out d code fits ld)
            (λ e le. (
              e,
              ap (λ (p : List Bytes). some (record { printed = p; status = code }, e))
                  (sym (append-nil printed)),
              le.gone,
            )))
  read_messages-Says ([] ∷ ms) printed (suc fuel) c ((_, some_bytes), h) enough l =
      absurd (omega (arith, some_bytes))
  read_messages-Says ((b ∷ m) ∷ ms) printed (suc fuel) c (((text, short), _), h) enough l =
      via (b ∷ m) (wire ms (frame [] ++ (htons code ++ rest))) out out _ (malloc_read_string c)
        (got_message (read_messages fuel) printed)
        (malloc_read_string-Yields (wire ms (frame [] ++ (htons code ++ rest))) out c (b ∷ m) text
          short l)
        (λ d ld.
          subst
            (λ (p : List Bytes).
              Says (record { printed = p; status = code }) out
                (read_messages fuel (printed ++ (b ∷ m) ∷ []) d))
            (append_assoc printed ((b ∷ m) ∷ []) ms)
            (read_messages-Says ms (printed ++ (b ∷ m) ∷ []) fuel d h (omega (arith, enough)) ld))

pub length-wire_ge : (ms : List Bytes) (rest : Bytes) → length ms ≤ length (wire ms rest)
length-wire_ge [] rest = omega arith
length-wire_ge (m ∷ ms) rest =
    omega (arith, length-append {0} m (wire ms rest), length-wire_ge ms rest)
