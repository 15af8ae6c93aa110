-- ===== src/Tests/Sessions.antt =====
-- Witnesses and tests for sessions between a client and the daemon.
use dumbos_dumbos.Base.{
  ℕ, zero, suc, ◌≡◌, refl, List, [], ◌∷◌, ◌++◌, append-nil, sym, subst, arith, Bytes, codes, All,
  some,
}
use dumbos_dumbos.Base.Errno.{e2big, epipe}
use dumbos_dumbos.Base.Int.{pos, negsuc}
use dumbos_dumbos.Stream.{Conn, got, htons}
use dumbos_dumbos.Stream.Framing.{frame}
use dumbos_dumbos.Session.{Reply}
use dumbos_dumbos.Session.Handler.{handler}
use dumbos_dumbos.Session.HandlerLaws.{reply_bytes, handler-IsLive}
use dumbos_dumbos.Session.Client.{client}
use dumbos_dumbos.Session.ClientLaws.{client_total, Finishes}
use dumbos_dumbos.Session.Agreement.{handler-client, client-Sends, sent_by, talk_of, request_bytes}
use dumbos_dumbos.Session.Excess.{handler-client-epipe, refuses, excuse}
use dumbos_dumbos.Session.Live.{IsLive, IsMessage, wire}

-- A command that writes its arguments, and fails.
abbrev echo : List Bytes → Reply
echo args = record { messages = args; code = negsuc 1 }

-- An end of a socket, to which these bytes come.
abbrev end_of : Bytes → Conn
end_of [] = record { incoming = []; outgoing = []; sent = [] }
end_of (b ∷ bs) = record { incoming = got b bs ∷ []; outgoing = []; sent = [] }

end_of-IsLive : (bs : Bytes) → IsLive (end_of bs) bs []
end_of-IsLive [] = record { coming = refl; healthy = tt; writable = tt; gone = refl }
end_of-IsLive (b ∷ bs) = record {
  coming = append-nil (b ∷ bs);
  healthy = (tt, tt);
  writable = tt;
  gone = refl;
}

abbrev two_args : List Bytes
two_args = codes "a" ∷ codes "bc" ∷ []

client_total_example : Finishes (client two_args (end_of (htons 0)))
client_total_example = client_total two_args (end_of (htons 0))

abbrev caller : Conn
caller = end_of (reply_bytes (echo two_args))

abbrev daemon : Conn
daemon = end_of (request_bytes two_args)

caller-IsLive : IsLive caller (handler echo daemon).1.sent []
caller-IsLive =
    let done =
      handler-IsLive echo two_args [] daemon (omega arith) (omega arith) (omega arith) (omega arith)
        (end_of-IsLive _) in
    subst (λ (b : Bytes). IsLive caller b []) (sym done.1.gone)
      (end_of-IsLive (reply_bytes (echo two_args)))

daemon-IsLive : IsLive daemon (sent_by (client two_args caller)) []
daemon-IsLive =
    let sent =
      client-Sends two_args _ caller (omega arith) (end_of-IsLive (reply_bytes (echo two_args))) in
    subst (λ (b : Bytes). IsLive daemon b []) (sym sent) (end_of-IsLive (request_bytes two_args))

handler-client_example :
    (talk_of (client two_args caller) ≡ some (record { printed = two_args; status = 65534 }))
    × ((handler echo daemon).0 ≡ negsuc 1)
handler-client_example =
    handler-client echo two_args caller daemon (omega arith) (omega arith) (omega arith)
      (omega arith) caller-IsLive daemon-IsLive

abbrev copies : ℕ → Bytes → List Bytes
copies zero s = []
copies (suc n) s = s ∷ copies n s

copies-IsMessage : (n : ℕ) (s : Bytes) → IsMessage s → All IsMessage (copies n s)
copies-IsMessage zero s h = tt
copies-IsMessage (suc n) s h = (h, copies-IsMessage n s h)

abbrev too_many : List Bytes
too_many = copies 257 (codes "a")

abbrev greedy : Conn
greedy = end_of (htons 0 ++ (frame excuse ++ htons e2big))

abbrev strict : Conn
strict = end_of (request_bytes too_many)

greedy-IsLive : IsLive greedy (handler echo strict).1.sent []
greedy-IsLive =
    let done =
      refuses echo 257 (wire too_many []) strict (omega arith) (omega arith) (end_of-IsLive _) in
    subst (λ (b : Bytes). IsLive greedy b []) (sym done.1.gone) (end_of-IsLive _)

strict-IsLive : IsLive strict (sent_by (client too_many greedy)) []
strict-IsLive =
    let sent =
      client-Sends too_many _ greedy (copies-IsMessage 257 (codes "a") (omega arith))
        (end_of-IsLive _) in
    subst (λ (b : Bytes). IsLive strict b []) (sym sent) (end_of-IsLive (request_bytes too_many))

handler-client-epipe_example :
    (talk_of (client too_many greedy) ≡ some (record { printed = excuse ∷ []; status = epipe }))
    × ((handler echo strict).0 ≡ pos e2big)
handler-client-epipe_example =
    handler-client-epipe echo too_many greedy strict (omega arith) (omega arith)
      (copies-IsMessage 257 (codes "a") (omega arith)) greedy-IsLive strict-IsLive
