-- ===== src/Tool.antt =====
-- server/src/dumb-main.c and server/src/dumb-tool-cmd-set.c: the command line tool that makes
-- payload files. A command takes the files and gives its exit code and the files it leaves. Memory
-- allocation and writes are taken to succeed, and `path` is the file of the payload.
pub mod Sets
pub mod Main
pub mod Struct
pub mod SizeLaws
pub mod SetLaws
pub mod Edits
pub mod Refused
pub mod SignLaws
pub mod PackLaws
pub mod UserLaws
pub mod Command
pub mod CommandLaws
use dumbos_dumbos.Base.{
  ℕ, ◌+◌, ◌<◌, [], ◌∷◌, ◌++◌, Option, none, some, Bytes, Result, ok, err, ltb, if◌then◌else◌,
  length, take, drop,
}
use dumbos_dumbos.Base.Errno.{einval, enoent}
use dumbos_dumbos.Files.{Files, lookup, insert}
use dumbos_dumbos.Payload.{Payload, base_size, to_bytes, of_bytes}

abbrev pub Run : Type 0
Run = ℕ × Files

-- The file as a buffer of its size.
abbrev pub loaded : Option Bytes → Result Bytes
loaded none = err enoent
loaded (some b) = if ltb (length b) base_size then err einval else ok b

unfoldable pub dp_malloc_load : Bytes → Files → Result Bytes
dp_malloc_load path fs = loaded (lookup path fs)

-- A command that ends with errno when the payload cannot be loaded.
abbrev pub on_payload : (Payload → ℕ → Run) → Files → Result Bytes → Run
on_payload f fs (err e) = (e, fs)
on_payload f fs (ok b) = f (of_bytes b) (length b)

-- The first `size` bytes at the address of the struct.
abbrev pub struct_bytes : Payload → ℕ → Bytes
struct_bytes p size = take size (to_bytes p)

-- fopen(3) with "wb" and one fwrite(3).
abbrev pub write_to_disk : Bytes → Payload → ℕ → Files → Run
write_to_disk path p size fs = (0, insert path (struct_bytes p size) fs)

-- snprintf of "%s" into a field of the struct: what stands behind the NUL stays.
abbrev pub put_string : ℕ → Bytes → Bytes → Bytes
put_string size s old = let t = take size s in t ++ (0 ∷ drop (length t + 1) old)
