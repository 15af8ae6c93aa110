-- ===== src/Session/Client.antt =====
-- caller/client.c, client, from the connected socket on. What it prints is a list of messages. The
-- loop that reads them takes fuel, and `none` stands for running out of it.
use dumbos_dumbos.Base.{
  ℕ, zero, suc, List, [], ◌∷◌, ◌++◌, Option, none, some, Bytes, Result, ok, err, length,
}
use dumbos_dumbos.Stream.{
  Conn, M, ◌>>◌, pure, read_ushort, write_ushort, malloc_read_string, write_string,
}
use dumbos_dumbos.Stream.Read.{contents}
use dumbos_dumbos.Session.{version_string, version_major, version_minor, version_patch}

-- What the client printed, and its exit status.
pub record Talk : Type 0 where
  pub printed : List Bytes
  pub status : ℕ

abbrev pub fails : ℕ → Conn → Option (Talk × Conn)
fails e c = some (record { printed = []; status = e }, c)

unfoldable pub send_version : M (Unit {0})
send_version = do
  write_string version_string
  write_ushort version_major
  write_ushort version_minor
  write_ushort version_patch

unfoldable pub send_each : List Bytes → M (Unit {0})
send_each [] = pure tt
send_each (a ∷ rest) = do write_string a; send_each rest

unfoldable pub send_args : List Bytes → M (Unit {0})
unfolding send_each
send_args args = do write_ushort (length args); send_each args

unfoldable pub got_code : List Bytes → Result ℕ × Conn → Option (Talk × Conn)
got_code printed (err e, c) = some (record { printed = printed; status = e }, c)
got_code printed (ok n, c) = some (record { printed = printed; status = n }, c)

-- An empty message is the last one.
unfoldable pub got_message :
    (List Bytes → Conn → Option (Talk × Conn))
    → List Bytes
    → Result Bytes × Conn
    → Option (Talk × Conn)
unfolding got_code
got_message next printed (err e, c) = some (record { printed = printed; status = e }, c)
got_message next printed (ok [], c) = got_code printed (read_ushort c)
got_message next printed (ok (b ∷ s), c) = next (printed ++ (b ∷ s) ∷ []) c

unfoldable pub read_messages : ℕ → List Bytes → Conn → Option (Talk × Conn)
unfolding got_message
read_messages zero printed c = none
read_messages (suc fuel) printed c = got_message (read_messages fuel) printed (malloc_read_string c)

unfoldable pub sent_args : Result (Unit {0}) × Conn → Option (Talk × Conn)
unfolding read_messages
sent_args (err e, c) = fails e c
sent_args (ok _, c) = read_messages (suc (length (contents c.incoming))) [] c

-- The daemon's verdict on the version: 0, or an error.
unfoldable pub got_verdict : List Bytes → Result ℕ × Conn → Option (Talk × Conn)
unfolding sent_args send_args
got_verdict args (err e, c) = fails e c
got_verdict args (ok zero, c) = sent_args (send_args args c)
got_verdict args (ok (suc n), c) = fails (suc n) c

unfoldable pub sent_version : List Bytes → Result (Unit {0}) × Conn → Option (Talk × Conn)
unfolding got_verdict
sent_version args (err e, c) = fails e c
sent_version args (ok _, c) = got_verdict args (read_ushort c)

unfoldable pub client : List Bytes → Conn → Option (Talk × Conn)
unfolding sent_version send_version
client args c = sent_version args (send_version c)
