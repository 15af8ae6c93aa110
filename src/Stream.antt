-- ===== src/Stream.antt =====
-- common.c, the byte stream helpers: read_all, write_all, and the framing of shorts, bytes and
-- strings that daemon and client exchange over a socket.
-- A descriptor is the sequence of outcomes that its read(2) and write(2) calls will have, so a
-- short read, a short write, EINTR and an error can come at any point. Memory allocation is taken
-- to succeed.
pub mod Read
pub mod Write
pub mod Framing
pub mod Transfer
pub mod TransferLaws
use dumbos_dumbos.Base.{
  ℕ, zero, suc, ◌+◌, ◌-◌, ◌*◌, ◌/◌, ◌%◌, ◌^◌, Bool, true, false, ◌||◌, List, [], ◌∷◌, ◌++◌, Bytes,
  Result, ok, err, ltb, leb, ◌==◌, if◌then◌else◌, length, take, drop, c_str,
}
use dumbos_dumbos.Base.Errno.{epipe, eoverflow}

-- What the next read(2) meets: at least one byte is there, a signal, or an error. The end of the
-- sequence is the end of the stream.
pub data ReadEvent : Type 0 where
  got : ℕ → Bytes → ReadEvent
  read_interrupted : ReadEvent
  read_fails : ℕ → ReadEvent

-- What the next write(2) meets: it takes at most so many bytes, a signal, or an error. After the
-- end of the sequence all writes are complete.
pub data WriteEvent : Type 0 where
  accepts : ℕ → WriteEvent
  write_interrupted : WriteEvent
  write_fails : ℕ → WriteEvent

pub record Conn : Type 0 where
  pub incoming : List ReadEvent
  pub outgoing : List WriteEvent
  -- the bytes that write(2) has taken so far
  pub sent : Bytes

-- What a read left of the bytes that were there.
abbrev pub unread : Bytes → List ReadEvent → List ReadEvent
unread [] es = es
unread (b ∷ bs) es = got b bs ∷ es

abbrev pub prepend : Bytes → Result Bytes × List ReadEvent → Result Bytes × List ReadEvent
prepend c (ok bs, es) = (ok (c ++ bs), es)
prepend c (err e, es) = (err e, es)

-- The loop of read_all, one read(2) to a round; `len` bytes are still to come.
unfoldable pub read_loop : ℕ → List ReadEvent → Result Bytes × List ReadEvent
read_loop zero es = (ok [], es)
read_loop (suc n) [] = (err epipe, [])
read_loop (suc n) (read_interrupted ∷ es) = read_loop (suc n) es
read_loop (suc n) (read_fails e ∷ es) = (err e, es)
read_loop (suc n) (got b bs ∷ es) =
    let rest = prepend (b ∷ bs) (read_loop (n - length bs) es) in
    if leb n (length bs) then (ok (b ∷ take n bs), unread (drop n bs) es) else rest

abbrev pub record_sent :
    Bytes
    → Result (Unit {0}) × Bytes × List WriteEvent
    → Result (Unit {0}) × Bytes × List WriteEvent
record_sent c (r, sent, es) = (r, c ++ sent, es)

-- The loop of write_all over the bytes that are left: the outcome and the bytes that were taken.
unfoldable pub write_loop : Bytes → List WriteEvent → Result (Unit {0}) × Bytes × List WriteEvent
write_loop [] es = (ok tt, [], es)
write_loop (b ∷ bs) [] = (ok tt, b ∷ bs, [])
write_loop (b ∷ bs) (write_interrupted ∷ es) = write_loop (b ∷ bs) es
write_loop (b ∷ bs) (write_fails e ∷ es) = (err e, [], es)
write_loop (b ∷ bs) (accepts zero ∷ es) = (err epipe, [], es)
write_loop (b ∷ bs) (accepts (suc n) ∷ es) =
    record_sent (take (suc n) (b ∷ bs)) (write_loop (drop n bs) es)

abbrev pub M : Type 0 → Type 0
M A = Conn → Result A × Conn

abbrev pub after : {A B : Type 0} → Result A × Conn → (A → M B) → Result B × Conn
after (ok a, c) f = f a c
after (err e, c) f = (err e, c)

infixl 5 ◌>>=◌ ◌>>◌
abbrev pub ◌>>=◌ : {A B : Type 0} → M A → (A → M B) → M B
◌>>=◌ m f c = after (m c) f

abbrev pub ◌>>◌ : {B : Type 0} → M (Unit {0}) → M B → M B
m >> k = m >>= λ _. k

abbrev pub pure : {A : Type 0} → A → M A
pure a c = (ok a, c)

abbrev pub fail : {A : Type 0} → ℕ → M A
fail e c = (err e, c)

unfoldable pub read_all : ℕ → M Bytes
unfolding read_loop
read_all len c = let (r, es) = read_loop len c.incoming in (r, record c { incoming = es })

unfoldable pub write_all : Bytes → M (Unit {0})
unfolding write_loop
write_all buf c =
    let (r, taken, es) = write_loop buf c.outgoing in
    (r, record c { outgoing = es; sent = c.sent ++ taken })

-- Two bytes as ntohs reads them, the more significant one first.
abbrev pub ntohs : Bytes → ℕ
ntohs [] = 0
ntohs (hi ∷ []) = 0
ntohs (hi ∷ lo ∷ _) = hi * 256 + lo

abbrev pub htons : ℕ → Bytes
htons n = n / 256 % 256 ∷ n % 256 ∷ []

unfoldable pub read_ushort : M ℕ
read_ushort = do val ← read_all 2; pure (ntohs val)

unfoldable pub write_ushort : ℕ → M (Unit {0})
write_ushort n = write_all (htons n)

abbrev pub first_byte : Bytes → M ℕ
first_byte [] = fail epipe
first_byte (b ∷ bs) = pure b

-- One read(2): a signal is an error here (EINTR is 4).
read_one : List ReadEvent → Result Bytes × List ReadEvent
read_one [] = (ok [], [])
read_one (read_interrupted ∷ es) = (err 4, es)
read_one (read_fails e ∷ es) = (err e, es)
read_one (got b bs ∷ es) = (ok (b ∷ []), unread bs es)

sys_read_one : M Bytes
unfolding read_one
sys_read_one c = let (r, es) = read_one c.incoming in (r, record c { incoming = es })

unfoldable pub read_byte : M ℕ
unfolding sys_read_one
read_byte = do bs ← sys_read_one; first_byte bs

-- One write(2) of one byte: how many bytes it took.
write_one : List WriteEvent → Result ℕ × List WriteEvent
write_one [] = (ok 1, [])
write_one (write_interrupted ∷ es) = (err 4, es)
write_one (write_fails e ∷ es) = (err e, es)
write_one (accepts zero ∷ es) = (ok 0, es)
write_one (accepts (suc n) ∷ es) = (ok 1, es)

sys_write_one : ℕ → M ℕ
unfolding write_one
sys_write_one b c =
    let (r, es) = write_one c.outgoing in
    (
      r,
      record c {
        outgoing = es;
        sent = elim r [ ok zero ↦ c.sent | ok (suc _) ↦ c.sent ++ b ∷ [] | err _ ↦ c.sent ];
      },
    )

unfoldable pub write_byte : ℕ → M (Unit {0})
unfolding sys_write_one
write_byte b = do n ← sys_write_one b; if n == 1 then pure tt else fail epipe

abbrev pub max_string : ℕ
max_string = 4096

-- The result is what the returned `char *` denotes: the bytes before the first NUL.
unfoldable pub malloc_read_string : M Bytes
malloc_read_string = do
  len ← read_ushort
  if leb max_string len then fail eoverflow else do dest ← read_all len; pure (c_str dest)

unfoldable pub write_string : Bytes → M (Unit {0})
write_string s =
    let len = length s in
    if ltb 65535 (len + 1) || leb max_string len
    then fail eoverflow
    else do write_ushort len; write_all s
