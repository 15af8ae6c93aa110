-- ===== src/Session/Live.antt =====
-- A connection without failures, and what the stream helpers do on it.
use dumbos_dumbos.Base.{
  ℕ, ◌<◌, ◌≡◌, refl, ap, ◌∙◌, List, [], ◌∷◌, ◌++◌, Bytes, Result, ok, length, IsText, subst, sym,
  err, leb, ltb, ◌||◌, ◌+◌, Bool-cases, inl, inr, c_str,
}
use dumbos_dumbos.Stream.{
  Conn, M, after, pure, read_all, write_all, htons, read_ushort, write_ushort, malloc_read_string,
  write_string, max_string,
}
use dumbos_dumbos.Stream.Read.{contents, Healthy}
use dumbos_dumbos.Stream.Write.{Writable}
use dumbos_dumbos.Session.{version_string, version_major, version_minor, version_patch}
use dumbos_dumbos.Stream.Framing.{
  frame, Reads, Writes, read_ushort-Reads, malloc_read_string-Reads, write_ushort-Writes,
  write_string-Writes,
}

-- The bytes that are still to come and those that were sent; no read or write will fail.
pub record IsLive (c : Conn) (inc out : Bytes) : Type 0 where
  pub coming : contents c.incoming ≡ inc
  pub healthy : Healthy c.incoming
  pub writable : Writable c.outgoing
  pub gone : c.sent ≡ out

-- A run that succeeds with `a`, after which `inc` is still to come and `out` was sent.
abbrev pub Yields : {A : Type 0} → A → Bytes → Bytes → Result A × Conn → Type 0
Yields a inc out r = (c : Conn) × (r ≡ (ok a, c)) × IsLive c inc out

yields :
    {A : Type 0} (a : A) (inc out : Bytes) (r : Result A × Conn)
    → r.0 ≡ ok a
    → IsLive r.1 inc out
    → Yields a inc out r
yields a inc out (r, c) e l = (c, ap (λ x. (x, c)) e, l)

-- Reading leaves what was sent, and what can be written, alone.
abbrev pub KeepsOut : {A : Type 0} → Conn → Result A × Conn → Type 0
KeepsOut c r = (r.1.sent ≡ c.sent) × (r.1.outgoing ≡ c.outgoing)

abbrev KeepsIn : {A : Type 0} → Conn → Result A × Conn → Type 0
KeepsIn c r = r.1.incoming ≡ c.incoming

pub after-KeepsOut :
    {A B : Type 0} (c : Conn) (r : Result A × Conn) (f : A → M B)
    → KeepsOut c r
    → ((a : A) (d : Conn) → KeepsOut d (f a d))
    → KeepsOut c (after r f)
after-KeepsOut c (ok a, d) f (s, o) k = ((k a d).0 ∙ s, (k a d).1 ∙ o)
after-KeepsOut c (err e, d) f (s, o) k = (s, o)

after-KeepsIn :
    {A B : Type 0} (c : Conn) (r : Result A × Conn) (f : A → M B)
    → KeepsIn c r
    → ((a : A) (d : Conn) → KeepsIn d (f a d))
    → KeepsIn c (after r f)
after-KeepsIn c (ok a, d) f h k = k a d ∙ h
after-KeepsIn c (err e, d) f h k = h

read_all-KeepsOut : (n : ℕ) (c : Conn) → KeepsOut c (read_all n c)
unfolding read_all
read_all-KeepsOut n c = (refl, refl)

pub read_ushort-KeepsOut : (c : Conn) → KeepsOut c (read_ushort c)
unfolding read_ushort
read_ushort-KeepsOut c =
    after-KeepsOut c (read_all 2 c) _ (read_all-KeepsOut 2 c) (λ a d. (refl, refl))

pub malloc_read_string-KeepsOut : (c : Conn) → KeepsOut c (malloc_read_string c)
unfolding malloc_read_string
malloc_read_string-KeepsOut c =
    after-KeepsOut c (read_ushort c) _ (read_ushort-KeepsOut c) (λ len d.
      elim (Bool-cases (leb max_string len)) [
        | inl e ↦ rw e (refl, refl)
        | inr e ↦ rw e (
            after-KeepsOut d (read_all len d) (λ dest. pure (c_str dest)) (read_all-KeepsOut len d)
              (λ a d'. (refl, refl)))
      ])

write_all-KeepsIn : (bs : Bytes) (c : Conn) → KeepsIn c (write_all bs c)
unfolding write_all
write_all-KeepsIn bs c = refl

pub write_ushort-KeepsIn : (n : ℕ) (c : Conn) → KeepsIn c (write_ushort n c)
unfolding write_ushort
write_ushort-KeepsIn n c = write_all-KeepsIn (htons n) c

pub write_string-KeepsIn : (s : Bytes) (c : Conn) → KeepsIn c (write_string s c)
unfolding write_string
write_string-KeepsIn s c =
    elim (Bool-cases (ltb 65535 (length s + 1) || leb max_string (length s))) [
      | inl e ↦ rw e refl
      | inr e ↦ rw e (
          after-KeepsIn c (write_ushort (length s) c) (λ _. write_all s)
            (write_ushort-KeepsIn (length s) c) (λ a d. write_all-KeepsIn s d))
    ]

-- A read that succeeds on a live connection.
reads :
    {A : Type 0} (a : A) (inc out rest : Bytes) (c : Conn) (r : Result A × Conn)
    → IsLive c inc out
    → Reads a rest r
    → KeepsOut c r
    → Yields a rest out r
reads a inc out rest c r l (e, k, h) (s, o) = yields a rest out r e (record {
  coming = k;
  healthy = h;
  writable = subst (λ es. Writable es) (sym o) l.writable;
  gone = s ∙ l.gone;
})

-- A write that succeeds on a live connection.
writes :
    (inc out more : Bytes) (c : Conn) (r : Result (Unit {0}) × Conn)
    → IsLive c inc out
    → Writes more c r
    → KeepsIn c r
    → Yields tt inc (out ++ more) r
writes inc out more c r l (e, s, w) k = yields tt inc (out ++ more) r e (record {
  coming = ap (λ es. contents es) k ∙ l.coming;
  healthy = subst (λ es. Healthy es) (sym k) l.healthy;
  writable = w;
  gone = s ∙ ap (λ (b : Bytes). b ++ more) l.gone;
})

module _ (rest out : Bytes) (c : Conn) where
  pub read_ushort-Yields :
      (n : ℕ) → n < 65536 → IsLive c (htons n ++ rest) out → Yields n rest out (read_ushort c)
  read_ushort-Yields n fits l =
      reads n (htons n ++ rest) out rest c (read_ushort c) l
        (read_ushort-Reads n rest c fits l.coming l.healthy) (read_ushort-KeepsOut c)

  pub malloc_read_string-Yields :
      (s : Bytes)
      → IsText s
      → length s < max_string
      → IsLive c (frame s ++ rest) out
      → Yields s rest out (malloc_read_string c)
  malloc_read_string-Yields s text short l =
      reads s (frame s ++ rest) out rest c (malloc_read_string c) l
        (malloc_read_string-Reads s rest c text short l.coming l.healthy)
        (malloc_read_string-KeepsOut c)

  pub write_ushort-Yields :
      (n : ℕ) → IsLive c rest out → Yields tt rest (out ++ htons n) (write_ushort n c)
  write_ushort-Yields n l =
      writes rest out (htons n) c (write_ushort n c) l (write_ushort-Writes n c l.writable)
        (write_ushort-KeepsIn n c)

  pub write_string-Yields :
      (s : Bytes)
      → length s < max_string
      → IsLive c rest out
      → Yields tt rest (out ++ frame s) (write_string s c)
  write_string-Yields s short l =
      writes rest out (frame s) c (write_string s c) l (write_string-Writes s c short l.writable)
        (write_string-KeepsIn s c)

-- A run that goes on where another one ended.
pub after-Yields :
    {A B : Type 0} (a : A) (b : B) (mid out rest out' : Bytes) (r : Result A × Conn) (f : A → M B)
    → Yields a mid out r
    → ((c : Conn) → IsLive c mid out → Yields b rest out' (f a c))
    → Yields b rest out' (after r f)
after-Yields a b mid out rest out' r f (c, e, l) k =
    subst (λ x. Yields b rest out' (after x f)) (sym e) (k c l)

-- Strings in their frames, before the rest of the bytes.
abbrev pub wire : List Bytes → Bytes → Bytes
wire [] rest = rest
wire (s ∷ ss) rest = frame s ++ wire ss rest

-- A string that write_string sends whole and that malloc_read_string reads back.
abbrev pub IsMessage : Bytes → Type 0
IsMessage s = IsText s × (length s < max_string)

-- What a client sends first.
abbrev pub hello : Bytes → Bytes
hello rest =
    frame version_string
    ++ (htons version_major ++ (htons version_minor ++ (htons version_patch ++ rest)))
