-- ===== src/Session.antt =====
-- daemon/handler.c and caller/client.c: a session, in which the client passes its arguments to the
-- daemon, and gets messages and a return code.
pub mod Handler
pub mod Client
pub mod Live
pub mod Growth
pub mod HandlerLaws
pub mod ClientLaws
pub mod Heard
pub mod Agreement
pub mod Excess
pub mod Commands
pub mod CommandLaws
use dumbos_dumbos.Base.{ℕ, ◌-◌, ◌%◌, List, Bytes, codes}
use dumbos_dumbos.Base.Int.{ℤ, pos, negsuc}

-- What a command writes to the client, and what it returns.
pub record Reply : Type 0 where
  pub messages : List Bytes
  pub code : ℤ

-- The version of common.h, without DEBUG_MODE.
abbrev pub version_string : Bytes
version_string = codes "v4.2.0"

abbrev pub version_major : ℕ
version_major = 4

abbrev pub version_minor : ℕ
version_minor = 2

abbrev pub version_patch : ℕ
version_patch = 0

-- `(unsigned short)ret`
abbrev pub to_ushort : ℤ → ℕ
to_ushort (pos n) = n % 65536
to_ushort (negsuc n) = 65535 - n % 65536
