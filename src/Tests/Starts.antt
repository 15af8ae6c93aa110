-- ===== src/Tests/Starts.antt =====
-- Witnesses for the start of the daemon and for the programs that it runs.
use dumbos_dumbos.Base.{◌≡◌, refl, arith, [], ◌∷◌, ◌++◌, codes, none, ok}
use dumbos_dumbos.Decimal.{print_ℕ}
use dumbos_dumbos.Daemon.Exec.{Spawn, interrupted, signaled, runs, retry, execv_wrapper}
use dumbos_dumbos.Daemon.Options.{System, starts, owner, daemon_main}
use dumbos_dumbos.Daemon.Options.Owner.{daemon_main_owner}

-- A program that is killed.
abbrev spawn : Spawn
spawn = record {
  pipe = ok tt;
  cloexec = ok tt;
  forked = ok tt;
  reads = interrupted ∷ [];
  waits = interrupted ∷ interrupted ∷ [];
  fate = runs (signaled 9);
}

killed : execv_wrapper spawn ≡ ok 137
unfolding execv_wrapper retry
killed = refl

abbrev system : System
system = record { getpwnam = λ s. none; getgrnam = λ s. none; freopen = λ file. ok tt }

daemon_main_owner_example :
    daemon_main system
      (codes "https://localhost/")
      (owner (print_ℕ 4294967296 ++ b':' ∷ print_ℕ 1000) ∷ [])
    ≡ starts (record {
      tmpdir = codes "/data/local/tmp/dumb/";
      server = codes "https://localhost/";
      path = codes "/dev/socket/dumbosd.socket";
      mode = 438;
      uid = 0;
      gid = 1000;
      con = codes "u:object_r:dumbosd_socket:s0";
    })
daemon_main_owner_example =
    daemon_main_owner system (codes "https://localhost/") 4294967296 1000 (omega arith)
      (omega arith)
