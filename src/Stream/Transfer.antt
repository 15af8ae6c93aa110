-- ===== src/Stream/Transfer.antt =====
-- common.c: write_file and read_file, which pass a file over a connection. Apart from the
-- connection, the calls on the file that is sent fail only where it is missing; the memory for a file
-- is there.
use dumbos_dumbos.Base.{
  ℕ, ◌%◌, ◌||◌, [], Option, none, some, Bytes, Result, ok, err, ltb, ◌==◌, if◌then◌else◌, length,
  take,
}
use dumbos_dumbos.Base.Errno.{enoent, efbig}
use dumbos_dumbos.Files.{Files, lookup, insert, delete}
use dumbos_dumbos.Payload.{htonl, ntohl}
use dumbos_dumbos.Stream.{Conn, M, ◌>>◌, fail, read_all, write_all}

abbrev pub max_file_size : ℕ
max_file_size = 262144

-- The size as the source keeps it, in 32 bits.
abbrev pub file_size : Bytes → ℕ
file_size content = length content % 4294967296

abbrev pub send_file : Option Bytes → M (Unit {0})
send_file none = fail enoent
send_file (some content) =
    let size = file_size content in
    if ltb max_file_size size || size == 0
    then fail efbig
    else do write_all (htonl size); write_all (take size content)

unfoldable pub write_file : Bytes → Files → M (Unit {0})
write_file path fs = send_file (lookup path fs)

abbrev pub Received : Type 0
Received = (Result (Unit {0}) × Files) × Conn

-- What creat(2) of the file that is received gives, and write_all of its bytes.
pub record Local : Type 0 where
  pub created : Result (Unit {0})
  pub filled : Result (Unit {0})

abbrev pub no_failure : Local
no_failure = record { created = ok tt; filled = ok tt }

-- The file is deleted where it could not be written.
abbrev pub wrote_bytes : Bytes → Files → Bytes → Result (Unit {0}) → Result (Unit {0}) × Files
wrote_bytes dest fs buf (err e) = (err e, delete dest fs)
wrote_bytes dest fs buf (ok _) = (ok tt, insert dest buf fs)

-- And where it could not be received.
abbrev pub got_bytes : Local → Bytes → Files → Result Bytes × Conn → Received
got_bytes l dest fs (err e, c) = ((err e, delete dest fs), c)
got_bytes l dest fs (ok buf, c) = (wrote_bytes dest fs buf l.filled, c)

abbrev pub got_size : Local → Bytes → Files → Result Bytes × Conn → Received
got_size l dest fs (err e, c) = ((err e, delete dest fs), c)
got_size l dest fs (ok b, c) =
    if ltb max_file_size (ntohl b)
    then ((err efbig, delete dest fs), c)
    else got_bytes l dest fs (read_all (ntohl b) c)

-- creat(2) truncates the file first; where it fails, nothing is read.
abbrev pub created_file : Local → Bytes → Files → Conn → Result (Unit {0}) → Received
created_file l dest fs c (err e) = ((err e, fs), c)
created_file l dest fs c (ok _) = got_size l dest (insert dest [] fs) (read_all 4 c)

unfoldable pub read_file : Local → Bytes → Files → Conn → Received
read_file l dest fs c = created_file l dest fs c l.created
