-- ===== src/Tests/Daemons.antt =====
-- Witnesses and tests for the daemon from its socket to its clients, and for the folders it makes.
use dumbos_dumbos.Base.{
  ◌≡◌, ◌⊎◌, ◌≢◌, refl, Bool, true, false, List, [], ◌∷◌, Bytes, codes, ok, err, some, arith, streq,
  streq_refl, if◌then◌else◌, Bool-cases, inl, inr, err-ne-ok,
}
use dumbos_dumbos.Base.Errno.{eexist, eperm}
use dumbos_dumbos.Base.Int.{negsuc}
use dumbos_dumbos.Stream.{Conn}
use dumbos_dumbos.Session.{Reply}
use dumbos_dumbos.Session.Handler.{handler}
use dumbos_dumbos.Daemon.Options.{DaemonOpts}
use dumbos_dumbos.Daemon.Folders.{Call, Folders, IsMkdir, mkdir_p, mkdir_loop}
use dumbos_dumbos.Daemon.Folders.Laws.{mkdir_p-There}
use dumbos_dumbos.Daemon.Start.{
  Host, serves, stops, removed, start_daemon, set_tmpdir, set_default_server, Guarded,
  start_daemon-Guarded,
}
use dumbos_dumbos.Daemon.Serve.{
  Round, accept_fails, fork_fails, forks, close, accept_one, accept_loop, listener,
  accept_loop-Alone, AreFresh,
}

abbrev is_there : Bytes → List Bytes → Bool
is_there p [] = false
is_there p (q ∷ s) = if streq p q then true else is_there p s

-- A disk as the list of its folders, which is all that there is; every mkdir works.
abbrev disk : Folders
disk = record {
  State = List Bytes;
  mkdir = λ p s. if is_there p s then (err eexist, s) else (ok tt, p ∷ s);
  IsFolder = λ p s. is_there p s ≡ true;
  IsOther = λ p s. ⊥;
}

is_there_first : (p : Bytes) (s : List Bytes) → is_there p (p ∷ s) ≡ true
is_there_first p s = rw (streq_refl p) refl

is_there_more : (p q : Bytes) (s : List Bytes) → is_there q s ≡ true → is_there q (p ∷ s) ≡ true
is_there_more p q s h = elim (Bool-cases (streq q p)) [ inl t ↦ rw t refl | inr t ↦ rw t h ]

disk-IsMkdir : IsMkdir disk
disk-IsMkdir = record {
  makes = λ p s. elim (Bool-cases (is_there p s)) [
    | inl t ↦ rw t (λ h. absurd (err-ne-ok h))
    | inr t ↦ rw t (λ h. is_there_first p s)
  ];
  exists = λ p s. elim (Bool-cases (is_there p s)) [
    | inl t ↦ rw t (λ h. inl t)
    | inr t ↦ rw t (λ h. inl (is_there_first p s))
  ];
  keeps_other = λ p q s h. h;
  makes_no_other = λ p q s h. h;
  keeps_folder = λ p q s h. elim (Bool-cases (is_there p s)) [
    | inl t ↦ rw t h
    | inr t ↦ rw t (is_there_more p q s h)
  ];
}

abbrev tmpdir : Bytes
tmpdir = codes "/data/tmp/dumb/"

made_it : (mkdir_p disk tmpdir (codes "/data" ∷ [])).0 ≡ ok tt
unfolding mkdir_p mkdir_loop streq
made_it = refl

mkdir_p-There_example :
    (is_there (codes "/data/tmp") (mkdir_p disk tmpdir (codes "/data" ∷ [])).1 ≡ true) ⊎ ⊥
mkdir_p-There_example =
    mkdir_p-There disk disk-IsMkdir tmpdir (codes "/data/tmp") (codes "/dumb") (codes "/data" ∷ [])
      refl refl (omega arith) made_it

abbrev opts : DaemonOpts
opts = record {
  tmpdir = codes "/data/tmp/dumb";
  server = codes "https://localhost";
  path = codes "/dev/socket/dumbosd.socket";
  mode = 438;
  uid = 0;
  gid = 1000;
  con = codes "u:object_r:dumbosd_socket:s0";
}

abbrev host : Call → Host
host chmod' = record {
  socket = ok 3;
  bind = ok tt;
  chown = ok tt;
  chmod = chmod';
  listen = ok tt;
  unlink = ok tt;
}

serving :
    (start_daemon disk (host (ok tt)) opts []).0
    ≡ serves 3
        (record { uid = some 0; gid = some 1000; mode = some 438; listening = true })
        (record {
          dumb_tmpdir = tmpdir;
          dumb_code_server = codes "https://localhost/dumb";
          dumb_upload_server = codes "https://localhost/upload";
        })
unfolding start_daemon set_tmpdir set_default_server
serving = refl

stopped : (start_daemon disk (host (err eperm)) opts []).0 ≡ stops eperm removed
unfolding start_daemon
stopped = refl

start_daemon-Guarded_example :
    Guarded disk (host (ok tt)) opts (start_daemon disk (host (ok tt)) opts []).0
start_daemon-Guarded_example = start_daemon-Guarded disk (host (ok tt)) opts []

abbrev run : List Bytes → Reply
run args = record { messages = args; code = negsuc 1 }

abbrev silent : Conn
silent = record { incoming = []; outgoing = []; sent = [] }

-- Two clients are served, and one is turned away.
abbrev rounds : List Round
rounds = forks 4 silent ∷ accept_fails 24 ∷ fork_fails 4 silent 11 ∷ forks 4 silent ∷ []

rounds-AreFresh : AreFresh 3 run rounds (listener 3 run [])
unfolding accept_one close
rounds-AreFresh =
    let apart : 3 ≢ 4 = λ h. absurd (omega (arith, h)) in
    ((apart, tt), (tt, ((apart, tt), ((apart, tt), tt))))

accept_loop-Alone_example :
    ((accept_loop 3 run rounds (listener 3 run [])).held ≡ 3 ∷ [])
    × ((accept_loop 3 run rounds (listener 3 run [])).children
        ≡ record { held = 4 ∷ []; session = handler run silent }
          ∷ record { held = 4 ∷ []; session = handler run silent }
          ∷ [])
accept_loop-Alone_example = accept_loop-Alone 3 run rounds rounds-AreFresh
