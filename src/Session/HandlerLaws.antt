-- ===== src/Session/HandlerLaws.antt =====
-- daemon/handler.c: what the daemon does in a session without failures.
use dumbos_dumbos.Base.{
  ℕ, ◌≤◌, ◌<◌, ◌≡◌, refl, ap, ◌∙◌, sym, subst, List, [], ◌∷◌, ◌++◌, append_assoc, append-nil, arith,
  Bytes, Result, length, All, false, ◌==◌, le→not_ltb,
}
use dumbos_dumbos.Stream.{Conn, htons, read_ushort, malloc_read_string, max_string}
use dumbos_dumbos.Stream.Framing.{frame}
use dumbos_dumbos.Session.{
  Reply, to_ushort, version_string, version_major, version_minor, version_patch,
}
use dumbos_dumbos.Session.Handler.{
  max_args, send, send_code, send_all, read_version, read_args, finish, answer, got_argc,
  got_version, handler,
}
use dumbos_dumbos.Session.Live.{
  IsLive, Yields, after-Yields, read_ushort-Yields, malloc_read_string-Yields, write_ushort-Yields,
  write_string-Yields, wire, IsMessage, hello,
}

pub read_version-Yields :
    (rest out : Bytes) (c : Conn)
    → IsLive c (hello rest) out
    → Yields (version_major, version_minor, version_patch) rest out (read_version c)
unfolding read_version
read_version-Yields rest out c l =
    after-Yields version_string _ _ out rest out (malloc_read_string c) _
      (malloc_read_string-Yields _ out c version_string (omega arith) (omega arith) l)
      (λ c1 l1.
        after-Yields 4 _ _ out rest out (read_ushort c1) _
          (read_ushort-Yields _ out c1 4 (omega arith) l1)
          (λ c2 l2.
            after-Yields 2 _ _ out rest out (read_ushort c2) _
              (read_ushort-Yields _ out c2 2 (omega arith) l2)
              (λ c3 l3.
                after-Yields 0 _ _ out rest out (read_ushort c3) _
                  (read_ushort-Yields rest out c3 0 (omega arith) l3) (λ c4 l4. (c4, refl, l4)))))

read_args-Yields :
    (args : List Bytes) (rest out : Bytes) (c : Conn)
    → All IsMessage args
    → IsLive c (wire args rest) out
    → Yields args rest out (read_args (length args) c)
unfolding read_args
read_args-Yields [] rest out c h l = (c, refl, l)
read_args-Yields (a ∷ args) rest out c ((text, short), h) l =
    after-Yields a (a ∷ args) (wire args rest) out rest out (malloc_read_string c) _
      (malloc_read_string-Yields (wire args rest) out c a text short l)
      (λ d ld.
        after-Yields args (a ∷ args) rest out rest out (read_args (length args) d) _
          (read_args-Yields args rest out d h ld) (λ e le. (e, refl, le)))

pub send-IsLive :
    (s inc out : Bytes) (c : Conn)
    → length s < max_string
    → IsLive c inc out
    → IsLive (send s c) inc (out ++ frame s)
unfolding send
send-IsLive s inc out c short l =
    let (d, e, ld) = write_string-Yields inc out c s short l in
    subst (λ x. IsLive x inc (out ++ frame s)) (ap (λ (r : Result (Unit {0}) × Conn). r.1) (sym e))
      ld

pub send_code-IsLive :
    (n : ℕ) (inc out : Bytes) (c : Conn)
    → IsLive c inc out
    → IsLive (send_code n c) inc (out ++ htons n)
unfolding send_code
send_code-IsLive n inc out c l =
    let (d, e, ld) = write_ushort-Yields inc out c n l in
    subst (λ x. IsLive x inc (out ++ htons n)) (ap (λ (r : Result (Unit {0}) × Conn). r.1) (sym e))
      ld

send_all-IsLive :
    (ss : List Bytes) (inc out : Bytes) (c : Conn)
    → All (λ s. length s < max_string) ss
    → IsLive c inc out
    → IsLive (send_all ss c) inc (out ++ wire ss [])
unfolding send_all
send_all-IsLive [] inc out c h l = rw (append-nil out) l
send_all-IsLive (s ∷ ss) inc out c (short, h) l =
    rw (← append_assoc out (frame s) (wire ss []))
      (send_all-IsLive ss inc (out ++ frame s) (send s c) h (send-IsLive s inc out c short l))

wire-append : (ss : List Bytes) (rest : Bytes) → wire ss [] ++ rest ≡ wire ss rest
wire-append [] rest = refl
wire-append (s ∷ ss) rest =
    append_assoc (frame s) (wire ss []) rest
    ∙ ap (λ (b : Bytes). frame s ++ b) (wire-append ss rest)

-- What the daemon sends in a whole session: the verdict, the messages, the end and the code.
abbrev pub reply_bytes : Reply → Bytes
reply_bytes r = htons 0 ++ wire r.messages (frame [] ++ htons (to_ushort r.code))

module _ (run : List Bytes → Reply) where
  answer-IsLive :
      (args : List Bytes) (inc : Bytes) (r : Result (List Bytes) × Conn)
      → All (λ s. length s < max_string) (run args).messages
      → Yields args inc (htons 0) r
      → ((answer run r).0 ≡ (run args).code) × IsLive (answer run r).1 inc (reply_bytes (run args))
  unfolding answer finish
  answer-IsLive args inc r h (c, e, l) =
      let reply = run args in
      let told = send_all-IsLive reply.messages inc (htons 0) c h l in
      let ended = send-IsLive [] inc _ _ (omega arith) told in
      let done = send_code-IsLive (to_ushort reply.code) inc _ _ ended in
      let joined : ((htons 0 ++ wire reply.messages []) ++ frame []) ++ htons (to_ushort reply.code)
          ≡ reply_bytes reply =
        append_assoc (htons 0 ++ wire reply.messages []) (frame []) (htons (to_ushort reply.code))
        ∙ append_assoc (htons 0) (wire reply.messages []) (frame [] ++ htons (to_ushort reply.code))
        ∙ ap (λ (b : Bytes). htons 0 ++ b)
            (wire-append reply.messages (frame [] ++ htons (to_ushort reply.code))) in
      subst
        (λ (x : Result (List Bytes) × Conn).
          ((answer run x).0 ≡ reply.code) × IsLive (answer run x).1 inc (reply_bytes reply))
        (sym e)
        (
          refl,
          subst
              (λ (b : Bytes).
                IsLive (send_code (to_ushort reply.code) (send [] (send_all reply.messages c))) inc
                  b)
              joined done,
        )

  got_argc-IsLive :
      (args : List Bytes) (rest : Bytes) (r : Result ℕ × Conn)
      → 0 < length args
      → length args ≤ max_args
      → All IsMessage args
      → All (λ s. length s < max_string) (run args).messages
      → Yields (length args) (wire args rest) (htons 0) r
      → ((got_argc run r).0 ≡ (run args).code)
        × IsLive (got_argc run r).1 rest (reply_bytes (run args))
  unfolding got_argc
  got_argc-IsLive args rest r some_args few ms ok_reply (c, e, l) =
      subst
        (λ (x : Result ℕ × Conn).
          ((got_argc run x).0 ≡ (run args).code)
          × IsLive (got_argc run x).1 rest (reply_bytes (run args)))
        (sym e)
        (rw (some_args→test (length args) some_args, le→not_ltb max_args (length args) few)
          (answer-IsLive args rest (read_args (length args) c) ok_reply
            (read_args-Yields args rest (htons 0) c ms l)))
    where
      some_args→test : (n : ℕ) → 0 < n → (n == 0) ≡ false
      some_args→test n h = ground arith

  -- A whole session, as the daemon sees it.
  pub handler-IsLive :
      (args : List Bytes) (rest : Bytes) (c : Conn)
      → 0 < length args
      → length args ≤ max_args
      → All IsMessage args
      → All (λ s. length s < max_string) (run args).messages
      → IsLive c (hello (htons (length args) ++ wire args rest)) []
      → ((handler run c).0 ≡ (run args).code)
        × IsLive (handler run c).1 rest (reply_bytes (run args))
  unfolding handler got_version
  handler-IsLive args rest c some_args few ms ok_reply l =
      let (d, e, ld) = read_version-Yields (htons (length args) ++ wire args rest) [] c l in
      let verdict = send_code-IsLive 0 (htons (length args) ++ wire args rest) [] d ld in
      subst
        (λ (x : Result (ℕ × ℕ × ℕ) × Conn).
          ((got_version run x).0 ≡ (run args).code)
          × IsLive (got_version run x).1 rest (reply_bytes (run args)))
        (sym e)
        (got_argc-IsLive args rest (read_ushort (send_code 0 d)) some_args few ms ok_reply (
          read_ushort-Yields (wire args rest) (htons 0) (send_code 0 d) (length args) (omega arith)
            verdict))
