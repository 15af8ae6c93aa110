-- ===== src/Tests/Streams.antt =====
-- The stream helpers on short reads, short writes and signals.
use dumbos_dumbos.Base.{◌≡◌, refl, [], ◌∷◌, ◌++◌, codes}
use dumbos_dumbos.Stream.{
  got, read_interrupted, accepts, write_interrupted, Conn, write_all, write_ushort, write_string,
  write_loop,
}
use dumbos_dumbos.Stream.Read.{contents}

abbrev fresh : Conn
fresh = record { incoming = []; outgoing = accepts 1 ∷ write_interrupted ∷ []; sent = [] }

-- The bytes of "ok" on the wire and one that follows, in three reads.
abbrev wire : Conn
wire = record {
  incoming = got 0 [] ∷ got 2 (codes "o") ∷ read_interrupted ∷ got b'k' (codes "x") ∷ [];
  outgoing = [];
  sent = [];
}

framed : contents wire.incoming ≡ (write_string (codes "ok") fresh).1.sent ++ codes "x"
unfolding write_string write_ushort write_all write_loop
framed = refl
