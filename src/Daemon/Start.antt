-- ===== src/Daemon/Start.antt =====
-- daemon/daemon.c: start_daemon up to its loop, in which Daemon/Serve serves the clients. The errors
-- that are only logged, of maybe_set_lockscreen_text and setfilecon, are left out.
use dumbos_dumbos.Base.{
  ℕ, ◌<◌, arith, lt→not_leb, ◌%◌, ◌==◌, ==_iff, ◌≡◌, ◌⊎◌, refl, Bool, true, false, [], ◌∷◌, ◌++◌,
  Option, none, some, Bytes, codes, Result, ok, err, not_zero_test, leb, if◌then◌else◌, Bool-cases,
  inl, inr, length,
}
use dumbos_dumbos.Base.Errno.{enametoolong}
use dumbos_dumbos.Daemon.SecretCode.{ends_in_slash, alloc_dumb_server_append}
use dumbos_dumbos.Daemon.Options.{DaemonOpts}
use dumbos_dumbos.Daemon.Folders.{Call, Folders, mkdir_p}

-- What is known of the socket in the file system. A mode or an id that bind(2) chose is `none`.
pub record SocketFile : Type 0 where
  pub uid : Option ℕ
  pub gid : Option ℕ
  pub mode : Option ℕ
  pub listening : Bool

-- The variables of daemon.c that the commands read.
pub record Config : Type 0 where
  pub dumb_tmpdir : Bytes
  pub dumb_code_server : Bytes
  pub dumb_upload_server : Bytes

-- How the calls end; socket(2) gives a descriptor.
pub record Host : Type 0 where
  pub socket : Result ℕ
  pub bind : Call
  pub chown : Call
  pub chmod : Call
  pub listen : Call
  pub unlink : Call

-- What lies at the path of the socket in the end: what lay there before bind(2), nothing, or the socket.
pub data Left : Type 0 where
  as_before removed : Left
  stays : SocketFile → Left

-- The return code with what is left, an abort(3), or the loop with its socket.
pub data Started : Type 0 where
  stops : ℕ → Left → Started
  aborts : SocketFile → Started
  serves : ℕ → SocketFile → Config → Started

-- Of an empty path, the byte before it is read; it is taken to be no slash.
unfoldable pub set_tmpdir : Bytes → Bytes
set_tmpdir path = if ends_in_slash path then path else path ++ b'/' ∷ []

abbrev pub both_servers : Result Bytes → Result Bytes → Option (Bytes × Bytes)
both_servers (ok code) (ok upload) = some (code, upload)
both_servers (ok code) (err e) = none
both_servers (err e) r = none

-- `none` is the abort(3) for a server that cannot be set.
unfoldable pub set_default_server : Bytes → Option (Bytes × Bytes)
unfolding alloc_dumb_server_append
set_default_server server =
    both_servers (alloc_dumb_server_append server (codes "dumb"))
      (alloc_dumb_server_append server (codes "upload"))

-- chown(2) leaves an id alone where it is given -1; chmod(2) takes the bits of 07777.
abbrev pub new_id : ℕ → Option ℕ → Option ℕ
new_id id old = if id == 4294967295 then old else some id

-- The errno is that of unlink(2) where this fails as well.
abbrev pub gives_up : ℕ → SocketFile → Call → Started
gives_up e f (ok _) = stops e removed
gives_up e f (err e') = stops e' (stays f)

abbrev pub configured : ℕ → SocketFile → Bytes → Option (Bytes × Bytes) → Started
configured fd f tmpdir none = aborts f
configured fd f tmpdir (some (code, upload)) =
    serves fd f
      (record { dumb_tmpdir = tmpdir; dumb_code_server = code; dumb_upload_server = upload })

ends_in_slash-append : (s : Bytes) → ends_in_slash (s ++ b'/' ∷ []) ≡ true
ends_in_slash-append [] = refl
ends_in_slash-append (c ∷ []) = refl
ends_in_slash-append (c ∷ d ∷ s) = ends_in_slash-append (d ∷ s)

set_tmpdir-slash : (path : Bytes) → ends_in_slash (set_tmpdir path) ≡ true
unfolding set_tmpdir
set_tmpdir-slash path = elim (Bool-cases (ends_in_slash path)) [
  | inl t ↦ rw (t, t) refl
  | inr t ↦ rw t (ends_in_slash-append path)
]

set_default_server-none : (server : Bytes) → set_default_server server ≡ none → server ≡ []
unfolding set_default_server alloc_dumb_server_append
set_default_server-none [] h = refl
set_default_server-none (c ∷ s) h = cc (rw (not_zero_test (length s)) at h)

set_default_server-some :
    (server : Bytes)
    → 0 < length server
    → (urls : Bytes × Bytes) × (set_default_server server ≡ some urls)
unfolding set_default_server alloc_dumb_server_append
set_default_server-some [] h = absurd (omega (arith, h))
set_default_server-some (c ∷ s) h = rw (not_zero_test (length s)) (_, refl)

module _ (F : Folders) (host : Host) (opt : DaemonOpts) where
  abbrev pub fresh : SocketFile
  fresh = record { uid = none; gid = none; mode = none; listening = false }

  -- The folder for temporary files is made; a failure is only logged.
  abbrev pub listened : ℕ → SocketFile → F.State → Call → Started × F.State
  listened fd f s (err e) = (gives_up e f host.unlink, s)
  listened fd f s (ok _) = (
    configured fd (record f { listening = true }) (set_tmpdir opt.tmpdir)
        (set_default_server opt.server),
    (mkdir_p F (set_tmpdir opt.tmpdir) s).1,
  )

  abbrev pub chmoded : ℕ → SocketFile → F.State → Call → Started × F.State
  chmoded fd f s (err e) = (gives_up e f host.unlink, s)
  chmoded fd f s (ok _) = listened fd (record f { mode = some (opt.mode % 4096) }) s host.listen

  abbrev pub chowned : ℕ → SocketFile → F.State → Call → Started × F.State
  chowned fd f s (err e) = (gives_up e f host.unlink, s)
  chowned fd f s (ok _) =
      chmoded fd (record f { uid = new_id opt.uid f.uid; gid = new_id opt.gid f.gid }) s host.chmod

  abbrev pub bound : ℕ → F.State → Call → Started × F.State
  bound fd s (err e) = (stops e as_before, s)
  bound fd s (ok _) = chowned fd fresh s host.chown

  -- sun_path has 108 bytes.
  abbrev pub has_socket : F.State → Result ℕ → Started × F.State
  has_socket s (err e) = (stops e as_before, s)
  has_socket s (ok fd) =
      if leb 108 (length opt.path) then (stops enametoolong as_before, s) else bound fd s host.bind

  unfoldable pub start_daemon : F.State → Started × F.State
  unfolding set_tmpdir set_default_server mkdir_p
  start_daemon s = has_socket s host.socket

  -- An id of the options, unless it is -1.
  abbrev pub HasId : ℕ → Option ℕ → Type 0
  HasId id o = (id ≡ 4294967295) ⊎ (o ≡ some id)

  abbrev pub IsGuarded : SocketFile → Type 0
  IsGuarded f = HasId opt.uid f.uid × HasId opt.gid f.gid × (f.mode ≡ some (opt.mode % 4096))

  abbrev pub Guarded : Started → Type 0
  Guarded (stops e as_before) = (host.socket ≡ err e) ⊎ ((e ≡ enametoolong) ⊎ (host.bind ≡ err e))
  Guarded (stops e removed) = host.unlink ≡ ok tt
  Guarded (stops e (stays f)) = (f.listening ≡ false) × (host.unlink ≡ err e)
  Guarded (aborts f) = IsGuarded f × (opt.server ≡ [])
  Guarded (serves fd f c) =
      IsGuarded f
      × (f.listening ≡ true)
      × (host.socket ≡ ok fd)
      × (ends_in_slash c.dumb_tmpdir ≡ true)

  new_id-HasId : (id : ℕ) (old : Option ℕ) → HasId id (new_id id old)
  new_id-HasId id old = elim (Bool-cases (id == 4294967295)) [
    | inl t ↦ inl ((==_iff id 4294967295).0 t)
    | inr t ↦ inr (rw t refl)
  ]

  gives_up-Guarded :
      (e : ℕ) (f : SocketFile) (r : Call)
      → host.unlink ≡ r
      → f.listening ≡ false
      → Guarded (gives_up e f r)
  gives_up-Guarded e f (ok _) same closed = same
  gives_up-Guarded e f (err e') same closed = (closed, same)

  configured-Guarded :
      (fd : ℕ) (f : SocketFile) (o : Option (Bytes × Bytes))
      → host.socket ≡ ok fd
      → IsGuarded f
      → (o ≡ none → opt.server ≡ [])
      → Guarded (configured fd (record f { listening = true }) (set_tmpdir opt.tmpdir) o)
  configured-Guarded fd f none made guarded k = (guarded, k refl)
  configured-Guarded fd f (some (code, upload)) made guarded k =
      (guarded, refl, made, set_tmpdir-slash opt.tmpdir)

  listened-Guarded :
      (fd : ℕ) (f : SocketFile) (s : F.State) (r : Call)
      → host.socket ≡ ok fd
      → IsGuarded f
      → f.listening ≡ false
      → Guarded (listened fd f s r).0
  listened-Guarded fd f s (err e) made guarded closed = gives_up-Guarded e f host.unlink refl closed
  listened-Guarded fd f s (ok _) made guarded closed =
      configured-Guarded fd f (set_default_server opt.server) made guarded
        (set_default_server-none opt.server)

  chmoded-Guarded :
      (fd : ℕ) (f : SocketFile) (s : F.State) (r : Call)
      → host.socket ≡ ok fd
      → HasId opt.uid f.uid
      → HasId opt.gid f.gid
      → f.listening ≡ false
      → Guarded (chmoded fd f s r).0
  chmoded-Guarded fd f s (err e) made user group closed =
      gives_up-Guarded e f host.unlink refl closed
  chmoded-Guarded fd f s (ok _) made user group closed =
      listened-Guarded fd _ s host.listen made (user, group, refl) closed

  chowned-Guarded :
      (fd : ℕ) (f : SocketFile) (s : F.State) (r : Call)
      → host.socket ≡ ok fd
      → f.listening ≡ false
      → Guarded (chowned fd f s r).0
  chowned-Guarded fd f s (err e) made closed = gives_up-Guarded e f host.unlink refl closed
  chowned-Guarded fd f s (ok _) made closed =
      chmoded-Guarded fd _ s host.chmod made (new_id-HasId opt.uid f.uid)
        (new_id-HasId opt.gid f.gid) closed

  bound-Guarded :
      (fd : ℕ) (s : F.State) (r : Call)
      → host.socket ≡ ok fd
      → host.bind ≡ r
      → Guarded (bound fd s r).0
  bound-Guarded fd s (err e) made failed = inr (inr failed)
  bound-Guarded fd s (ok _) made _ = chowned-Guarded fd fresh s host.chown made refl

  has_socket-Guarded : (s : F.State) (r : Result ℕ) → host.socket ≡ r → Guarded (has_socket s r).0
  has_socket-Guarded s (err e) made = inl made
  has_socket-Guarded s (ok fd) made = elim (Bool-cases (leb 108 (length opt.path))) [
    | inl t ↦ rw t (inr (inl refl))
    | inr t ↦ rw t (bound-Guarded fd s host.bind made refl)
  ]

  -- Whichever calls fail: a client can connect only to a socket that has the owner and the group of
  -- the options, where these are not -1, and the mode of the options in its lowest twelve bits; the
  -- daemon aborts only when its server is empty; and when start_daemon returns, then no socket was
  -- bound, and what lay at its path is as it was, or it was removed again, or unlink failed, its
  -- errno is what is returned, and nobody could connect to the socket that is left.
  pub start_daemon-Guarded : (s : F.State) → Guarded (start_daemon s).0
  unfolding start_daemon
  start_daemon-Guarded s = has_socket-Guarded s host.socket refl

  -- When no call fails, the path of the socket fits into sun_path and the server is not empty, the
  -- daemon serves, with the socket that it asked for and the owner and the mode of its options.
  pub start_daemon_serves :
      (fd : ℕ) (s : F.State)
      → host.socket ≡ ok fd
      → host.bind ≡ ok tt
      → host.chown ≡ ok tt
      → host.chmod ≡ ok tt
      → host.listen ≡ ok tt
      → length opt.path < 108
      → 0 < length opt.server
      → (c : Config) × ((start_daemon s).0
          ≡ serves fd
              (record {
                uid = new_id opt.uid none;
                gid = new_id opt.gid none;
                mode = some (opt.mode % 4096);
                listening = true;
              })
              c)
  unfolding start_daemon
  start_daemon_serves fd s made bound' chown' chmod' listen' short some_server =
      let (urls, set) = set_default_server-some opt.server some_server in
      rw (made, lt→not_leb 108 (length opt.path) short, bound', chown', chmod', listen', set)
        (_, refl)
