-- ===== src/Stream/TransferLaws.antt =====
-- What read_file leaves, and that it receives what write_file sends.
use dumbos_dumbos.Base.{
  ℕ, ◌%◌, ◌≤◌, ◌<◌, ◌≡◌, ◌⊎◌, inl, inr, refl, ap, ◌∙◌, false, Bool, true, [], ◌++◌, append_assoc,
  none, some, arith, Bytes, Result, ok, err, ltb, ◌==◌, if◌then◌else◌, length, take_all, streq,
  streq_refl, le→not_ltb, not_ltb,
}
use dumbos_dumbos.Base.Errno.{efbig}
use dumbos_dumbos.Files.{
  Files, lookup, insert, delete, lookup-insert, lookup-insert_self, lookup-delete,
}
use dumbos_dumbos.Payload.{htonl, ntohl}
use dumbos_dumbos.Payload.FieldLaws.{ntohl-htonl}
use dumbos_dumbos.Stream.{Conn, read_all, write_all}
use dumbos_dumbos.Stream.Read.{contents, Healthy, read_all_sound}
use dumbos_dumbos.Stream.Write.{Writable, write_all_complete}
use dumbos_dumbos.Stream.Framing.{Reads, Writes, after-Writes, read_all-Reads}
use dumbos_dumbos.Stream.Transfer.{
  max_file_size, write_file, Received, Local, no_failure, wrote_bytes, got_bytes, got_size,
  created_file, read_file,
}

-- Either the file was received and is not too large, or it is not there.
abbrev pub Settled : Bytes → Received → Type 0
Settled dest ((ok _, fs), c) = (b : Bytes) × (lookup dest fs ≡ some b) × (length b ≤ max_file_size)
Settled dest ((err e, fs), c) = lookup dest fs ≡ none

-- All other files are as they were.
abbrev Untouched : Bytes → Files → Files → Type 0
Untouched dest fs gs =
    (other : Bytes) → streq dest other ≡ false → lookup other gs ≡ lookup other fs

abbrev Good : Bytes → Files → Received → Type 0
Good dest fs r = Settled dest r × Untouched dest fs r.0.1

deleted : (dest : Bytes) (fs : Files) → lookup dest (delete dest fs) ≡ none
deleted dest fs = rw (lookup-delete dest dest fs, streq_refl dest) refl

delete-Untouched : (dest : Bytes) (fs : Files) → Untouched dest fs (delete dest fs)
delete-Untouched dest fs other e = rw (lookup-delete dest other fs, e) refl

insert-Untouched : (dest b : Bytes) (fs : Files) → Untouched dest fs (insert dest b fs)
insert-Untouched dest b fs other e = rw (lookup-insert dest other b fs, e) refl

wrote_bytes-Good :
    (dest : Bytes) (fs : Files) (bs : Bytes) (c : Conn)
    → length bs ≤ max_file_size
    → (r : Result (Unit {0})) → Good dest fs (wrote_bytes dest fs bs r, c)
wrote_bytes-Good dest fs bs c small (err e) = (deleted dest fs, delete-Untouched dest fs)
wrote_bytes-Good dest fs bs c small (ok _) =
    ((bs, lookup-insert_self dest bs fs, small), insert-Untouched dest bs fs)

got_bytes-Good :
    (l : Local) (dest : Bytes) (fs : Files) (n : ℕ) (c : Conn)
    → n ≤ max_file_size
    → Good dest fs (got_bytes l dest fs (read_all n c))
got_bytes-Good l dest fs n c small = settled (read_all n c) (λ bs e. (read_all_sound n c bs e).0)
  where
    settled :
        (r : Result Bytes × Conn)
        → ((bs : Bytes) → r.0 ≡ ok bs → length bs ≡ n)
        → Good dest fs (got_bytes l dest fs r)
    settled (err e, d) long = (deleted dest fs, delete-Untouched dest fs)
    settled (ok bs, d) long = wrote_bytes-Good dest fs bs d (omega (arith, long bs refl)) l.filled

got_size-Good :
    (l : Local) (dest : Bytes) (fs : Files) (r : Result Bytes × Conn)
    → Good dest fs (got_size l dest fs r)
got_size-Good l dest fs (err e, c) = (deleted dest fs, delete-Untouched dest fs)
got_size-Good l dest fs (ok b, c) = decided (ltb max_file_size (ntohl b)) refl
  where
    decided :
        (big : Bool)
        → ltb max_file_size (ntohl b) ≡ big
        → Good dest fs (
            if big
            then ((err efbig, delete dest fs), c)
            else got_bytes l dest fs (read_all (ntohl b) c))
    decided true e = (deleted dest fs, delete-Untouched dest fs)
    decided false e = got_bytes-Good l dest fs (ntohl b) c (not_ltb max_file_size (ntohl b) e)

-- The file was received, or it is not there, or creat(2) failed and it is as it was.
abbrev pub Outcome : Local → Bytes → Files → Received → Type 0
Outcome l dest fs r =
    ((l.created ≡ ok tt) × Settled dest r)
    ⊎ ((e : ℕ) × (l.created ≡ err e) × (r.0.0 ≡ err e) × (lookup dest r.0.1 ≡ lookup dest fs))

created_file-Outcome :
    (l : Local) (dest other : Bytes) (fs : Files) (c : Conn) (r : Result (Unit {0}))
    → l.created ≡ r
    → streq dest other ≡ false
    → Outcome l dest fs (created_file l dest fs c r)
      × (lookup other (created_file l dest fs c r).0.1 ≡ lookup other fs)
created_file-Outcome l dest other fs c (err x) made e = (inr (x, made, refl, refl), refl)
created_file-Outcome l dest other fs c (ok _) made e =
    let (s, u) = got_size-Good l dest (insert dest [] fs) (read_all 4 c) in
    (inl (made, s), u other e ∙ insert-Untouched dest [] fs other e)

-- On any stream, where creat works, read_file either succeeds and leaves a file of at most
-- MAX_FILE_SIZE bytes, or it fails and leaves no file, also when the file cannot be written; where
-- creat fails, read_file fails with its errno and the file is as it was. Any other file is as it was.
pub read_file-Settled :
    (l : Local) (dest other : Bytes) (fs : Files) (c : Conn)
    → streq dest other ≡ false
    → Outcome l dest fs (read_file l dest fs c)
      × (lookup other (read_file l dest fs c).0.1 ≡ lookup other fs)
unfolding read_file
read_file-Settled l dest other fs c e = created_file-Outcome l dest other fs c l.created refl e

landed :
    {A : Type 0} (a : A) (rest : Bytes) (r : Result A × Conn)
    → Reads a rest r
    → (d : Conn) × (r ≡ (ok a, d)) × (contents d.incoming ≡ rest) × Healthy d.incoming
landed a rest (r, d) (e, left, h) = (d, ap (λ x. (x, d)) e, left, h)

write_file-Writes :
    (path content : Bytes) (fs : Files) (c : Conn)
    → lookup path fs ≡ some content
    → 0 < length content
    → length content ≤ max_file_size
    → Writable c.outgoing
    → Writes (htonl (length content) ++ content) c (write_file path fs c)
unfolding write_file
write_file-Writes path content fs c found some_bytes small w =
    rw
      (
        found,
        fits (length content) small,
        le→not_ltb max_file_size (length content) small,
        some_size (length content) some_bytes,
        take_all (length content) content (omega arith),
      )
      (after-Writes (htonl (length content)) content c (write_all (htonl (length content)) c)
        (write_all content) (write_all_complete (htonl (length content)) c w)
        (λ d wd. write_all_complete content d wd))
  where
    fits : (n : ℕ) → n ≤ max_file_size → n % 4294967296 ≡ n
    fits n h = omega arith

    some_size : (n : ℕ) → 0 < n → (n == 0) ≡ false
    some_size n h = ground arith

-- A file that is not empty and has at most MAX_FILE_SIZE bytes is received as it was sent: when the
-- writes of the sender and the reads of the receiver do not fail, nor the calls of the receiver on its
-- file, write_file and read_file succeed,
-- however the bytes are split by the two sides, the receiver's file has the bytes of the sender's,
-- and the bytes that follow stay in the stream.
pub read_file-write_file :
    (path dest content rest : Bytes) (fs gs : Files) (sender receiver : Conn)
    → lookup path fs ≡ some content
    → 0 < length content
    → length content ≤ max_file_size
    → Writable sender.outgoing
    → sender.sent ≡ []
    → Healthy receiver.incoming
    → contents receiver.incoming ≡ (write_file path fs sender).1.sent ++ rest
    → ((write_file path fs sender).0 ≡ ok tt)
      × ((read_file no_failure dest gs receiver).0.0 ≡ ok tt)
      × (lookup dest (read_file no_failure dest gs receiver).0.1 ≡ some content)
      × (contents (read_file no_failure dest gs receiver).1.incoming ≡ rest)
unfolding read_file
read_file-write_file path dest content rest fs gs sender receiver found some_bytes small w fresh h
      e =
    let n = length content in
    let (done, sent, _) = write_file-Writes path content fs sender found some_bytes small w in
    let on_wire : contents receiver.incoming ≡ htonl n ++ (content ++ rest) =
      e
      ∙ ap (λ (l : Bytes). l ++ rest) (sent ∙ ap (λ (l : Bytes). l ++ (htonl n ++ content)) fresh)
      ∙ append_assoc (htonl n) content rest in
    let (c1, e1, left1, h1) =
      landed (htonl n) (content ++ rest) (read_all 4 receiver)
        (read_all-Reads (htonl n) (content ++ rest) receiver on_wire h) in
    let (c2, e2, left2, h2) =
      landed content rest (read_all n c1) (read_all-Reads content rest c1 left1 h1) in
    let gs1 = insert dest [] gs in
    let received : got_size no_failure dest gs1 (read_all 4 receiver)
        ≡ ((ok tt, insert dest content gs1), c2) =
      ap (λ r. got_size no_failure dest gs1 r) e1
      ∙ sized n c1 gs1 small
      ∙ ap (λ r. got_bytes no_failure dest gs1 r) e2 in
    (
      done,
      ap (λ (r : Received). r.0.0) received,
      ap (λ (r : Received). lookup dest r.0.1) received ∙ lookup-insert_self dest content gs1,
      ap (λ (r : Received). contents r.1.incoming) received ∙ left2,
    )
  where
    sized :
        (n : ℕ) (c : Conn) (gs : Files)
        → n ≤ max_file_size
        → got_size no_failure dest gs (ok (htonl n), c)
          ≡ got_bytes no_failure dest gs (read_all n c)
    sized n c gs small =
        rw (ntohl-htonl n (omega (arith, small)), le→not_ltb max_file_size n small) refl
