-- ===== src/Tests/Transfers.antt =====
-- Witnesses for the transfer of files and for the installation of an app.
use dumbos_dumbos.Base.{◌≡◌, refl, false, [], ◌∷◌, ◌++◌, arith, codes, some, ok, streq}
use dumbos_dumbos.Files.{Files, lookup}
use dumbos_dumbos.Stream.{Conn, got, read_interrupted, accepts, write_all, write_loop}
use dumbos_dumbos.Stream.Read.{contents}
use dumbos_dumbos.Stream.Transfer.{write_file, no_failure, read_file}
use dumbos_dumbos.Stream.TransferLaws.{Outcome, read_file-Settled, read_file-write_file}

abbrev source : Files
source = (codes "log", codes "hello") ∷ []

-- Takes one byte, then the rest.
abbrev sender : Conn
sender = record { incoming = []; outgoing = accepts 1 ∷ []; sent = [] }

abbrev receiver : Conn
receiver = record {
  incoming =
      got 0 (0 ∷ []) ∷ read_interrupted ∷ got 0 (5 ∷ codes "hell") ∷ got b'o' (codes "!") ∷ [];
  outgoing = [];
  sent = [];
}

on_wire : contents receiver.incoming ≡ (write_file (codes "log") source sender).1.sent ++ codes "!"
unfolding write_file lookup streq write_all write_loop
on_wire = refl

log_there : lookup (codes "log") source ≡ some (codes "hello")
unfolding lookup streq
log_there = refl

read_file-write_file_example :
    ((write_file (codes "log") source sender).0 ≡ ok tt)
    × ((read_file no_failure (codes "copy") [] receiver).0.0 ≡ ok tt)
    × (lookup (codes "copy") (read_file no_failure (codes "copy") [] receiver).0.1
        ≡ some (codes "hello"))
    × (contents (read_file no_failure (codes "copy") [] receiver).1.incoming ≡ codes "!")
read_file-write_file_example =
    read_file-write_file (codes "log") (codes "copy") (codes "hello") (codes "!") source [] sender
      receiver log_there (omega arith) (omega arith) (omega arith, tt) refl
      (tt, (tt, (tt, (tt, tt)))) on_wire

other_name : streq (codes "log") (codes "old") ≡ false
unfolding streq
other_name = refl

read_file-Settled_example :
    Outcome no_failure (codes "log") source (read_file no_failure (codes "log") source receiver)
    × (lookup (codes "old") (read_file no_failure (codes "log") source receiver).0.1
        ≡ lookup (codes "old") source)
read_file-Settled_example =
    read_file-Settled no_failure (codes "log") (codes "old") source receiver other_name
