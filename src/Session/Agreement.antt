-- ===== src/Session/Agreement.antt =====
-- daemon/handler.c and caller/client.c: a client and a daemon on the two ends of one socket.
use dumbos_dumbos.Base.{
  ℕ, zero, suc, ◌≤◌, ◌<◌, ◌≡◌, refl, ap, ◌∙◌, sym, subst, List, [], ◌∷◌, ◌++◌, arith, Bytes, Result,
  ok, err, length, All, Option, none, some,
}
use dumbos_dumbos.Stream.{Conn, htons, read_ushort, max_string}
use dumbos_dumbos.Stream.Read.{contents}
use dumbos_dumbos.Stream.Framing.{frame}
use dumbos_dumbos.Base.Int.{ℤ, pos, negsuc}
use dumbos_dumbos.Session.{Reply, to_ushort}
use dumbos_dumbos.Session.Handler.{handler, max_args, send_code, got_version}
use dumbos_dumbos.Session.HandlerLaws.{read_version-Yields, send_code-IsLive, handler-IsLive}
use dumbos_dumbos.Session.Client.{
  Talk, send_args, read_messages, sent_args, got_verdict, sent_version, client,
}
use dumbos_dumbos.Session.ClientLaws.{send_version-Yields, send_args-Yields, read_messages-Ends}
use dumbos_dumbos.Session.Growth.{Extends, send_args-Extends, got_argc-Extends}
use dumbos_dumbos.Session.Live.{
  read_ushort-KeepsOut, IsLive, read_ushort-Yields, wire, IsMessage, hello,
}
use dumbos_dumbos.Session.Heard.{IsLine, Says, read_messages-Says, length-wire_ge}

-- What a client has sent when the daemon has accepted its version and it has sent its arguments.
abbrev pub request_bytes : List Bytes → Bytes
request_bytes args = hello (htons (length args) ++ wire args [])

-- What a client has sent when it ends.
abbrev pub sent_by : Option (Talk × Conn) → Bytes
sent_by none = []
sent_by (some (t, d)) = d.sent

abbrev pub talk_of : Option (Talk × Conn) → Option Talk
talk_of none = none
talk_of (some (t, d)) = some t

abbrev pub Greets : Option (Talk × Conn) → Type 0
Greets r = (t : Talk) × (more : Bytes) × Says t (hello more) r

pub greets→sent_by :
    (r : Option (Talk × Conn)) → Greets r → (more : Bytes) × (sent_by r ≡ hello more)
greets→sent_by r (t, more, (d, e, s)) = (more, ap (λ x. sent_by x) e ∙ s)

module _ (args : List Bytes) where
  messages-Greets :
      (c : Conn) (r : Result (Unit {0}) × Conn)
      → c.sent ≡ hello []
      → Extends c r.1
      → Greets (sent_args r)
  unfolding sent_args
  messages-Greets c (ok _, d) h (x, s) =
      let (t, e, done, kept) =
        read_messages-Ends (suc (length (contents d.incoming))) [] d (omega arith) in
      (t, x, (e, done, kept ∙ s ∙ ap (λ (b : Bytes). b ++ x) h))
  messages-Greets c (err e, d) h (x, s) =
      (record { printed = []; status = e }, x, (d, refl, s ∙ ap (λ (b : Bytes). b ++ x) h))

  verdict-Greets : (r : Result ℕ × Conn) → r.1.sent ≡ hello [] → Greets (got_verdict args r)
  unfolding got_verdict
  verdict-Greets (ok zero, d) h = messages-Greets d (send_args args d) h (send_args-Extends args d)
  verdict-Greets (ok (suc n), d) h = (record { printed = []; status = suc n }, [], (d, refl, h))
  verdict-Greets (err e, d) h = (record { printed = []; status = e }, [], (d, refl, h))

  -- Whatever the daemon sends, the client starts with its version.
  pub client-Greets : (inc : Bytes) (c : Conn) → IsLive c inc [] → Greets (client args c)
  unfolding client sent_version
  client-Greets inc c l =
      let (d, e, ld) = send_version-Yields inc [] c l in
      subst (λ (x : Result (Unit {0}) × Conn). Greets (sent_version args x)) (sym e)
        (verdict-Greets (read_ushort d) ((read_ushort-KeepsOut d).0 ∙ ld.gone))

  -- Once its version is accepted, the client has sent its arguments and listens.
  pub client-Listens :
      (more : Bytes) (c : Conn)
      → All IsMessage args
      → IsLive c (htons 0 ++ more) []
      → (d : Conn) × IsLive d more (request_bytes args)
        × (client args c ≡ read_messages (suc (length (contents d.incoming))) [] d)
  unfolding client sent_version got_verdict sent_args
  client-Listens more c ms l =
      let (c1, e1, l1) = send_version-Yields (htons 0 ++ more) [] c l in
      let (c2, e2, l2) = read_ushort-Yields more (hello []) c1 0 (omega arith) l1 in
      let (c3, e3, l3) = send_args-Yields args more (hello []) c2 ms l2 in
      (
        c3,
        l3,
        ap (λ (x : Result (Unit {0}) × Conn). sent_version args x) e1
            ∙ ap (λ (x : Result ℕ × Conn). got_verdict args x) e2
            ∙ ap (λ (x : Result (Unit {0}) × Conn). sent_args x) e3,
      )

  pub client-Sends :
      (more : Bytes) (c : Conn)
      → All IsMessage args
      → IsLive c (htons 0 ++ more) []
      → sent_by (client args c) ≡ request_bytes args
  client-Sends more c ms l =
      let (d, ld, e) = client-Listens more c ms l in
      let (t, d', done, kept) =
        read_messages-Ends (suc (length (contents d.incoming))) [] d (omega arith) in
      ap (λ x. sent_by x) (e ∙ done) ∙ kept ∙ ld.gone

  client-Hears :
      (code : ℕ) (ss : List Bytes) (c : Conn)
      → code < 65536
      → All IsMessage args
      → All IsLine ss
      → IsLive c (htons 0 ++ wire ss (frame [] ++ htons code)) []
      → talk_of (client args c) ≡ some (record { printed = ss; status = code })
  client-Hears code ss c fits ms lines l =
      let (d, ld, e) = client-Listens (wire ss (frame [] ++ htons code)) c ms l in
      let enough : length ss < suc (length (contents d.incoming)) = omega (
        arith,
        length-wire_ge ss (frame [] ++ htons code),
        ap (λ (b : Bytes). length b) ld.coming,
      ) in
      let (d', heard, _) =
        read_messages-Says code [] (request_bytes args) fits ss []
          (suc (length (contents d.incoming))) d lines enough ld in
      ap (λ x. talk_of x) (e ∙ heard)

line-Short : (ss : List Bytes) → All IsLine ss → All (λ s. length s < max_string) ss
line-Short [] h = tt
line-Short (s ∷ ss) ((m, _), h) = (m.1, line-Short ss h)

to_ushort_lt : (n : ℤ) → to_ushort n < 65536
to_ushort_lt (pos n) = omega arith
to_ushort_lt (negsuc n) = omega arith

module _ (run : List Bytes → Reply) where
  -- A client of the right version is told so first.
  pub handler-Accepts :
      (more : Bytes) (d : Conn)
      → IsLive d (hello more) []
      → (answers : Bytes) × ((handler run d).1.sent ≡ htons 0 ++ answers)
  unfolding handler got_version
  handler-Accepts more d l =
      let (e, eq, le) = read_version-Yields more [] d l in
      let told = send_code-IsLive 0 more [] e le in
      let (x, s) =
        got_argc-Extends run (send_code 0 e) (read_ushort (send_code 0 e))
          (read_ushort-KeepsOut (send_code 0 e)).0 in
      (
        x,
        ap (λ (r : Result (ℕ × ℕ × ℕ) × Conn). (got_version run r).1.sent) eq
            ∙ s
            ∙ ap (λ (b : Bytes). b ++ x) told.gone,
      )

  -- A client and a daemon on the two ends of a socket on which no call fails, each of which has to
  -- come what the other one sends: the daemon runs the client's arguments, and the client prints
  -- the messages of the command and ends with its return code.
  pub handler-client :
      (args : List Bytes) (c d : Conn)
      → 0 < length args
      → length args ≤ max_args
      → All IsMessage args
      → All IsLine (run args).messages
      → IsLive c (handler run d).1.sent []
      → IsLive d (sent_by (client args c)) []
      → (talk_of (client args c)
          ≡ some (record { printed = (run args).messages; status = to_ushort (run args).code }))
        × ((handler run d).0 ≡ (run args).code)
  handler-client args c d some_args few ms lines lc ld =
      let (more, greeting) = greets→sent_by (client args c) (client-Greets args _ c lc) in
      let (answers, accepted) =
        handler-Accepts more d (subst (λ (b : Bytes). IsLive d b []) greeting ld) in
      let requested =
        client-Sends args answers c ms (subst (λ (b : Bytes). IsLive c b []) accepted lc) in
      let (code, done) =
        handler-IsLive run args [] d some_args few ms (line-Short (run args).messages lines)
          (subst (λ (b : Bytes). IsLive d b []) requested ld) in
      (
        client-Hears args (to_ushort (run args).code) (run args).messages c
            (to_ushort_lt (run args).code) ms lines
            (subst (λ (b : Bytes). IsLive c b []) done.gone lc),
        code,
      )
