-- ===== src/Session/Excess.antt =====
-- daemon/handler.c and caller/client.c: a client with more arguments than the daemon takes.
use dumbos_dumbos.Base.{
  ℕ, zero, suc, ◌<◌, ◌≡◌, refl, ap, ◌∙◌, sym, subst, List, [], ◌∷◌, ◌++◌, arith, Bytes, codes,
  Result, ok, err, length, All, some, ltb, leb, ◌==◌, c_str, if◌then◌else◌, false, true,
}
use dumbos_dumbos.Base.Int.{pos}
use dumbos_dumbos.Base.Errno.{e2big, epipe, eoverflow}
use dumbos_dumbos.Stream.{
  Conn, ◌>>=◌, after, pure, fail, max_string, ReadEvent, got, read_interrupted, read_fails,
  read_loop, read_all, htons, malloc_read_string,
}
use dumbos_dumbos.Stream.Read.{contents, Healthy}
use dumbos_dumbos.Stream.Framing.{frame}
use dumbos_dumbos.Session.{Reply}
use dumbos_dumbos.Session.Handler.{handler, max_args, send, send_code, got_version, got_argc}
use dumbos_dumbos.Session.HandlerLaws.{read_version-Yields, send-IsLive, send_code-IsLive}
use dumbos_dumbos.Session.Client.{client, got_message, read_messages}
use dumbos_dumbos.Session.Agreement.{
  sent_by, talk_of, greets→sent_by, client-Greets, client-Listens, client-Sends, handler-Accepts,
  request_bytes,
}
use dumbos_dumbos.Session.Live.{
  IsLive, read_ushort-Yields, malloc_read_string-Yields, wire, IsMessage, hello,
}

abbrev pub excuse : Bytes
excuse = codes "too many arguments"

-- A stream that has ended, perhaps after some signals.
read_loop-epipe :
    (n : ℕ) (es : List ReadEvent)
    → Healthy es
    → contents es ≡ []
    → (read_loop (suc n) es).0 ≡ err epipe
unfolding read_loop
read_loop-epipe n [] h e = refl
read_loop-epipe n (got b bs ∷ es) h e = cc e
read_loop-epipe n (read_interrupted ∷ es) (_, h) e = read_loop-epipe n es h e
read_loop-epipe n (read_fails x ∷ es) (f, h) e = absurd f

-- The return code stands where a length should, so the client waits for a string of E2BIG bytes.
read_messages-epipe :
    (fuel : ℕ) (printed : List Bytes) (out : Bytes) (c : Conn)
    → IsLive c (htons e2big) out
    → talk_of (read_messages (suc fuel) printed c)
      ≡ some (record { printed = printed; status = epipe })
unfolding read_messages got_message malloc_read_string read_all
read_messages-epipe fuel printed out c l =
    let (d, e, ld) = read_ushort-Yields [] out c e2big (omega arith) l in
    ap
      (λ (x : Result ℕ × Conn). talk_of (
        got_message (read_messages fuel) printed (
          after x (λ len.
            if leb max_string len
            then fail eoverflow
            else (read_all len >>= (λ dest. pure (c_str dest)))))))
      e
    ∙ stuck d (read_loop e2big d.incoming) (read_loop-epipe 6 d.incoming ld.healthy ld.coming)
  where
    stuck :
        (d : Conn) (r : Result Bytes × List ReadEvent)
        → r.0 ≡ err epipe
        → talk_of (
            got_message
              (read_messages fuel)
              printed
              (after (r.0, record d { incoming = r.1 }) (λ dest. pure (c_str dest))))
          ≡ some (record { printed = printed; status = epipe })
    stuck d (ok bs, es) h = cc h
    stuck d (err e, es) h = cc h

misreads :
    (fuel : ℕ) (out : Bytes) (c : Conn)
    → 0 < fuel
    → IsLive c (frame excuse ++ htons e2big) out
    → talk_of (read_messages (suc fuel) [] c)
      ≡ some (record { printed = excuse ∷ []; status = epipe })
unfolding read_messages got_message
misreads zero out c h l = absurd (omega (arith, h))
misreads (suc fuel) out c h l =
    let (d, e, ld) =
      malloc_read_string-Yields (htons e2big) out c excuse (omega arith) (omega arith) l in
    ap (λ (x : Result Bytes × Conn). talk_of (got_message (read_messages (suc fuel)) [] x)) e
    ∙ read_messages-epipe fuel (excuse ∷ []) out d ld

module _ (run : List Bytes → Reply) where
  pub refuses :
      (argc : ℕ) (rest : Bytes) (d : Conn)
      → max_args < argc
      → argc < 65536
      → IsLive d (hello (htons argc ++ rest)) []
      → ((handler run d).0 ≡ pos e2big)
        × IsLive (handler run d).1 rest ((htons 0 ++ frame excuse) ++ htons e2big)
  unfolding handler got_version got_argc
  refuses argc rest d many fits l =
      let (d1, e1, l1) = read_version-Yields (htons argc ++ rest) [] d l in
      let l2 = send_code-IsLive 0 (htons argc ++ rest) [] d1 l1 in
      let (d3, e3, l3) = read_ushort-Yields rest (htons 0) (send_code 0 d1) argc fits l2 in
      subst
        (λ (x : Result (ℕ × ℕ × ℕ) × Conn).
          ((got_version run x).0 ≡ pos e2big)
          × IsLive (got_version run x).1 rest ((htons 0 ++ frame excuse) ++ htons e2big))
        (sym e1)
        (subst
          (λ (x : Result ℕ × Conn).
            ((got_argc run x).0 ≡ pos e2big)
            × IsLive (got_argc run x).1 rest ((htons 0 ++ frame excuse) ++ htons e2big))
          (sym e3)
          (rw (not_zero argc many, over argc many)
            (
              refl,
              send_code-IsLive e2big rest (htons 0 ++ frame excuse) (send excuse d3)
                  (send-IsLive excuse rest (htons 0) d3 (omega arith) l3),
            )))
    where
      not_zero : (n : ℕ) → max_args < n → (n == 0) ≡ false
      not_zero n h = ground arith

      over : (n : ℕ) → max_args < n → ltb max_args n ≡ true
      over n h = ground arith

  -- A client with more arguments than the daemon takes, and a daemon, on the two ends of a socket
  -- on which no call fails: the daemon ends with E2BIG, but the client, which has been told why,
  -- ends with EPIPE.
  pub handler-client-epipe :
      (args : List Bytes) (c d : Conn)
      → max_args < length args
      → length args < 65536
      → All IsMessage args
      → IsLive c (handler run d).1.sent []
      → IsLive d (sent_by (client args c)) []
      → (talk_of (client args c) ≡ some (record { printed = excuse ∷ []; status = epipe }))
        × ((handler run d).0 ≡ pos e2big)
  handler-client-epipe args c d many fits ms lc ld =
      let (more, greeting) = greets→sent_by (client args c) (client-Greets args _ c lc) in
      let (answers, accepted) =
        handler-Accepts run more d (subst (λ (b : Bytes). IsLive d b []) greeting ld) in
      let requested =
        client-Sends args answers c ms (subst (λ (b : Bytes). IsLive c b []) accepted lc) in
      let (code, done) =
        refuses (length args) (wire args []) d many fits
          (subst (λ (b : Bytes). IsLive d b []) requested ld) in
      let (c1, l1, e1) =
        client-Listens args (frame excuse ++ htons e2big) c ms
          (subst (λ (b : Bytes). IsLive c b []) done.gone lc) in
      let waiting : 0 < length (contents c1.incoming) =
        omega (arith, ap (λ (b : Bytes). length b) l1.coming) in
      (
        ap (λ x. talk_of x) e1
            ∙ misreads (length (contents c1.incoming)) (request_bytes args) c1 waiting l1,
        code,
      )
