-- ===== src/Payload/Store.antt =====
-- dumbpayload.c, dp_write_to_file: a payload is written to a file, from which dp_malloc_load reads it.
use dumbos_dumbos.Base.{
  ℕ, ◌+◌, ◌≡◌, refl, [], Bytes, Result, ok, err, length, take, take_all, le→not_ltb, arith,
}
use dumbos_dumbos.Files.{Files, insert, lookup-insert_self}
use dumbos_dumbos.Payload.{Payload, IsPayload, base_size, to_bytes}
use dumbos_dumbos.Payload.Layout.{length-to_bytes}
use dumbos_dumbos.Payload.Fields.{dp_get_data_size}
use dumbos_dumbos.Tool.{dp_malloc_load}

-- Behind the data that is there, nothing is modelled.
abbrev pub write_sized : Bytes → Payload → Files → Result ℕ → Result (Unit {0}) × Files
write_sized path p fs (err e) = (err e, fs)
write_sized path p fs (ok n) = (ok tt, insert path (take (base_size + n) (to_bytes p)) fs)

-- The file is emptied before the size is looked at.
unfoldable pub dp_write_to_file : Payload → Bytes → Files → Result (Unit {0}) × Files
unfolding dp_get_data_size
dp_write_to_file p path fs = write_sized path p (insert path [] fs) (dp_get_data_size p)

-- A payload whose data_size field is the size of its data is loaded as it was written.
pub dp_malloc_load-dp_write_to_file :
    (p : Payload) (path : Bytes) (fs : Files)
    → IsPayload p
    → dp_get_data_size p ≡ ok (length p.payload)
    → ((dp_write_to_file p path fs).0 ≡ ok tt)
      × (dp_malloc_load path (dp_write_to_file p path fs).1 ≡ ok (to_bytes p))
unfolding dp_write_to_file dp_malloc_load
dp_malloc_load-dp_write_to_file p path fs h size =
    let long = length-to_bytes p h in
    rw
      (
        size,
        take_all (base_size + length p.payload) (to_bytes p) (omega (arith, long)),
        lookup-insert_self path (to_bytes p) (insert path [] fs),
        le→not_ltb (length (to_bytes p)) base_size (omega (arith, long)),
      )
      (refl, refl)
