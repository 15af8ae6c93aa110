-- ===== src/Session/Growth.antt =====
-- What was sent stays sent: each step of a session only adds to it.
use dumbos_dumbos.Base.{
  ℕ, zero, suc, ◌≡◌, refl, ap, ◌∙◌, sym, List, [], ◌∷◌, ◌++◌, append_assoc, append-nil, Bytes,
  Result, ok, err, length, leb, ltb, ◌||◌, ◌==◌, ◌+◌, Bool-cases, inl, inr, codes,
}
use dumbos_dumbos.Stream.{
  Conn, M, after, malloc_read_string, write_all, write_ushort, write_string, max_string,
}
use dumbos_dumbos.Base.Int.{ℤ, pos}
use dumbos_dumbos.Base.Errno.{e2big}
use dumbos_dumbos.Session.{Reply, to_ushort}
use dumbos_dumbos.Session.Live.{KeepsOut, malloc_read_string-KeepsOut, after-KeepsOut}
use dumbos_dumbos.Session.Client.{send_each, send_args}
use dumbos_dumbos.Session.Handler.{
  send, send_code, send_all, read_args, finish, answer, got_argc, max_args,
}

-- The second connection has sent what the first one has, and perhaps more.
abbrev pub Extends : Conn → Conn → Type 0
Extends c d = (x : Bytes) × (d.sent ≡ c.sent ++ x)

same : (c d : Conn) → d.sent ≡ c.sent → Extends c d
same c d e = ([], e ∙ sym (append-nil c.sent))

further : (c d e : Conn) → Extends c d → Extends d e → Extends c e
further c d e (x, p) (y, q) = (x ++ y, q ∙ ap (λ (b : Bytes). b ++ y) p ∙ append_assoc c.sent x y)

after-Extends :
    {A B : Type 0} (c : Conn) (r : Result A × Conn) (f : A → M B)
    → Extends c r.1
    → ((a : A) (d : Conn) → Extends d (f a d).1)
    → Extends c (after r f).1
after-Extends c (ok a, d) f h k = further c d (f a d).1 h (k a d)
after-Extends c (err e, d) f h k = h

write_all-Extends : (bs : Bytes) (c : Conn) → Extends c (write_all bs c).1
unfolding write_all
write_all-Extends bs c = (_, refl)

write_ushort-Extends : (n : ℕ) (c : Conn) → Extends c (write_ushort n c).1
unfolding write_ushort
write_ushort-Extends n c = write_all-Extends _ c

write_string-Extends : (s : Bytes) (c : Conn) → Extends c (write_string s c).1
unfolding write_string
write_string-Extends s c =
    elim (Bool-cases (ltb 65535 (length s + 1) || leb max_string (length s))) [
      | inl e ↦ rw e (same c c refl)
      | inr e ↦ rw e (
          after-Extends c (write_ushort (length s) c) (λ _. write_all s)
            (write_ushort-Extends (length s) c) (λ _ d. write_all-Extends s d))
    ]

send_each-Extends : (args : List Bytes) (c : Conn) → Extends c (send_each args c).1
unfolding send_each
send_each-Extends [] c = same c c refl
send_each-Extends (a ∷ args) c =
    after-Extends c (write_string a c) (λ _. send_each args) (write_string-Extends a c)
      (λ _ d. send_each-Extends args d)

pub send_args-Extends : (args : List Bytes) (c : Conn) → Extends c (send_args args c).1
unfolding send_args
send_args-Extends args c =
    after-Extends c (write_ushort (length args) c) (λ _. send_each args)
      (write_ushort-Extends (length args) c) (λ _ d. send_each-Extends args d)

send-Extends : (s : Bytes) (c : Conn) → Extends c (send s c)
unfolding send
send-Extends s c = write_string-Extends s c

send_code-Extends : (n : ℕ) (c : Conn) → Extends c (send_code n c)
unfolding send_code
send_code-Extends n c = write_ushort-Extends n c

send_all-Extends : (ss : List Bytes) (c : Conn) → Extends c (send_all ss c)
unfolding send_all
send_all-Extends [] c = same c c refl
send_all-Extends (s ∷ ss) c =
    further c (send s c) (send_all ss (send s c)) (send-Extends s c)
      (send_all-Extends ss (send s c))

read_args-KeepsOut : (n : ℕ) (c : Conn) → KeepsOut c (read_args n c)
unfolding read_args
read_args-KeepsOut zero c = (refl, refl)
read_args-KeepsOut (suc n) c =
    after-KeepsOut c (malloc_read_string c)
      (λ a d. after (read_args n d) (λ args e. (ok (a ∷ args), e))) (malloc_read_string-KeepsOut c)
      (λ a d.
        after-KeepsOut d (read_args n d) (λ args e. (ok (a ∷ args), e)) (read_args-KeepsOut n d)
          (λ b e. (refl, refl)))

then_send : (s : Bytes) (c d : Conn) → Extends c d → Extends c (send s d)
then_send s c d h = further c d (send s d) h (send-Extends s d)

then_code : (n : ℕ) (c d : Conn) → Extends c d → Extends c (send_code n d)
then_code n c d h = further c d (send_code n d) h (send_code-Extends n d)

then_all : (ss : List Bytes) (c d : Conn) → Extends c d → Extends c (send_all ss d)
then_all ss c d h = further c d (send_all ss d) h (send_all-Extends ss d)

finish-Extends : (code : ℤ) (c d : Conn) → Extends c d → Extends c (finish code d).1
unfolding finish
finish-Extends code c d h = then_code (to_ushort code) c (send [] d) (then_send [] c d h)

module _ (run : List Bytes → Reply) where
  answer-Extends :
      (c : Conn) (r : Result (List Bytes) × Conn) → r.1.sent ≡ c.sent → Extends c (answer run r).1
  unfolding answer
  answer-Extends c (err e, d) h =
      let told = send (codes "internal error") d in
      finish-Extends (pos e) c (send_code (to_ushort (pos e)) (send [] told)) (
        then_code (to_ushort (pos e)) c (send [] told)
          (then_send [] c told (then_send (codes "internal error") c d (same c d h))))
  answer-Extends c (ok args, d) h =
      finish-Extends (run args).code c (send_all (run args).messages d)
        (then_all (run args).messages c d (same c d h))

  pub got_argc-Extends :
      (c : Conn) (r : Result ℕ × Conn) → r.1.sent ≡ c.sent → Extends c (got_argc run r).1
  unfolding got_argc
  got_argc-Extends c (err e, d) h = same c d h
  got_argc-Extends c (ok argc, d) h = elim (Bool-cases (argc == 0)) [
    | inl e ↦ rw e (
        then_code 0 c (send [] (send (codes "No command") d)) (
          then_send [] c (send (codes "No command") d)
            (then_send (codes "No command") c d (same c d h))))
    | inr e ↦ rw e (elim (Bool-cases (ltb max_args argc)) [
      | inl f ↦ rw f (
          then_code e2big c (send (codes "too many arguments") d)
            (then_send (codes "too many arguments") c d (same c d h)))
      | inr f ↦ rw f (answer-Extends c (read_args argc d) ((read_args-KeepsOut argc d).0 ∙ h))
    ])
  ]
