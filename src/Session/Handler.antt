-- ===== src/Session/Handler.antt =====
-- daemon/handler.c, handler. The command is an argument; what it writes is sent after it has run, in
-- the same order. As in the source, a failure to write to the client is ignored.
use dumbos_dumbos.Base.{
  ℕ, zero, suc, ◌&&◌, List, [], ◌∷◌, Bytes, codes, Result, ok, err, ltb, ◌==◌, if◌then◌else◌,
}
use dumbos_dumbos.Base.Int.{ℤ, pos}
use dumbos_dumbos.Base.Errno.{e2big, eproto}
use dumbos_dumbos.Stream.{
  Conn, M, ◌>>=◌, pure, read_ushort, write_ushort, malloc_read_string, write_string,
}
use dumbos_dumbos.Session.{Reply, version_major, version_minor, version_patch, to_ushort}

abbrev pub max_args : ℕ
max_args = 256

unfoldable pub send : Bytes → Conn → Conn
send s c = (write_string s c).1

unfoldable pub send_code : ℕ → Conn → Conn
send_code n c = (write_ushort n c).1

unfoldable pub send_all : List Bytes → Conn → Conn
send_all [] c = c
send_all (s ∷ ss) c = send_all ss (send s c)

-- The version string and the three numbers of the version.
unfoldable pub read_version : M (ℕ × ℕ × ℕ)
read_version = do
  s ← malloc_read_string
  major ← read_ushort
  minor ← read_ushort
  patch ← read_ushort
  pure (major, minor, patch)

unfoldable pub read_args : ℕ → M (List Bytes)
read_args zero = pure []
read_args (suc n) = do arg ← malloc_read_string; args ← read_args n; pure (arg ∷ args)

-- The empty string that ends the messages, and the return code.
unfoldable pub finish : ℤ → Conn → ℤ × Conn
finish code c = (code, send_code (to_ushort code) (send [] c))

-- The arguments were read, or not: then the client is told at once, and once more at the end.
unfoldable pub answer : (List Bytes → Reply) → Result (List Bytes) × Conn → ℤ × Conn
unfolding finish
answer run (err e, c) =
    finish (pos e) (send_code (to_ushort (pos e)) (send [] (send (codes "internal error") c)))
answer run (ok args, c) = finish (run args).code (send_all (run args).messages c)

unfoldable pub got_argc : (List Bytes → Reply) → Result ℕ × Conn → ℤ × Conn
unfolding answer
got_argc run (err e, c) = (pos eproto, c)
got_argc run (ok argc, c) =
    if argc == 0
    then (pos 0, send_code 0 (send [] (send (codes "No command") c)))
    else if ltb max_args argc
    then (pos e2big, send_code e2big (send (codes "too many arguments") c))
    else answer run (read_args argc c)

unfoldable pub got_version : (List Bytes → Reply) → Result (ℕ × ℕ × ℕ) × Conn → ℤ × Conn
unfolding got_argc
got_version run (err e, c) = (pos e, c)
got_version run (ok (major, minor, patch), c) =
    if major == version_major && (minor == version_minor && patch == version_patch)
    then got_argc run (read_ushort (send_code 0 c))
    else (pos eproto, send_code eproto c)

unfoldable pub handler : (List Bytes → Reply) → Conn → ℤ × Conn
unfolding got_version
handler run c = got_version run (read_version c)
