-- ===== src/Daemon/Options.antt =====
-- daemon/main.c: the options of the daemon, up to the call of start_daemon. getopt_long gives the options
-- one by one; the names of users and groups, and whether the log file can be opened, are arguments. The
-- level of the log is left out.
pub mod Owner
use dumbos_dumbos.Base.{
  ℕ, zero, suc, ◌+◌, ◌-◌, ◌*◌, ◌%◌, ◌^◌, ◌≤◌, ◌<◌, ◌≡◌, refl, ap, ◌∙◌, sym, Bool, true, false, ◌&&◌,
  List, [], ◌∷◌, ◌++◌, append-nil, Option, none, some, Bytes, codes, Result, ok, err, leb, ltb,
  ◌==◌, if◌then◌else◌, length, All, arith, le→leb, lt→ltb,
}
use dumbos_dumbos.Base.Int.{pos, negsuc}
use dumbos_dumbos.Base.Errno.{einval, erange}
use dumbos_dumbos.Decimal.{number, skip_space, strtoll_value, strtoul_value, print_ℕ}
use dumbos_dumbos.Decimal.RoundTrip.{number-print_ℕ}
use dumbos_dumbos.Decimal.Digits.{IsDigit, print_ℕ-IsDigit, length-print_ℕ_pos}

-- struct daemon_opts
pub record DaemonOpts : Type 0 where
  pub tmpdir : Bytes
  pub server : Bytes
  pub path : Bytes
  pub mode : ℕ
  pub uid : ℕ
  pub gid : ℕ
  pub con : Bytes

-- An option as getopt_long returns it, with optarg.
pub data Opt : Type 0 where
  help version unknown : Opt
  log_level socket host owner mode context tmpdir logfile : Bytes → Opt

-- The variables of main() that the options set; `default_server` is DUMB_DEFAULT_SERVER.
pub record Settings : Type 0 where
  pub opt_path : Bytes
  pub opt_server : Bytes
  pub opt_con : Bytes
  pub opt_tmpdir : Bytes
  pub opt_sock_mode_str : Bytes
  pub opt_sock_own_str : Bytes
  pub opt_logfile : Option Bytes

abbrev pub default_settings : Bytes → Settings
default_settings default_server = record {
  opt_path = codes "/dev/socket/dumbosd.socket";
  opt_server = default_server;
  opt_con = codes "u:object_r:dumbosd_socket:s0";
  opt_tmpdir = codes "/data/local/tmp/dumb/";
  opt_sock_mode_str = codes "666";
  opt_sock_own_str = codes "root:system";
  opt_logfile = none;
}

-- The exit code, or what the options have set. An unknown option sets the `bool error` to EINVAL, so
-- the exit code is 1.
unfoldable pub read_options : List Opt → Settings → ℕ × Option Settings
read_options [] s = (0, some s)
read_options (help ∷ os) s = (0, none)
read_options (version ∷ os) s = (0, none)
read_options (unknown ∷ os) s = (1, none)
read_options (log_level a ∷ os) s = read_options os s
read_options (socket a ∷ os) s = read_options os (record s { opt_path = a })
read_options (host a ∷ os) s = read_options os (record s { opt_server = a })
read_options (owner a ∷ os) s = read_options os (record s { opt_sock_own_str = a })
read_options (mode a ∷ os) s = read_options os (record s { opt_sock_mode_str = a })
read_options (context a ∷ os) s = read_options os (record s { opt_con = a })
read_options (tmpdir a ∷ os) s = read_options os (record s { opt_tmpdir = a })
read_options (logfile a ∷ os) s = read_options os (record s { opt_logfile = some a })

abbrev pub starts_with_digit : Bytes → Bool
starts_with_digit [] = false
starts_with_digit (c ∷ s) = leb b'0' c && leb c b'9'

-- A `long` in an id of 32 bits.
abbrev pub to_id : ℕ → ℕ
to_id n = n % 4294967296

-- strtol behind a first digit, with the tests of `*end` and errno.
abbrev pub id_of_number : Option (Bool × ℕ × Bytes) → Result ℕ
id_of_number none = err einval
id_of_number (some (negative, n, [])) = if ltb n (2 ^ 63) then ok (to_id n) else err einval
id_of_number (some (negative, n, c ∷ rest)) = err einval

abbrev pub id_of_name : Option ℕ → Result ℕ
id_of_name none = err einval
id_of_name (some id) = ok id

-- The user or the group: a number, or a name that is looked up.
unfoldable pub parse_id : (Bytes → Option ℕ) → Bytes → Result ℕ
parse_id find s = if starts_with_digit s then id_of_number (number s) else id_of_name (find s)

-- `strchr(sock_own_str, ':')`: what stands before the first colon and behind it.
abbrev pub and_before : ℕ → Option (Bytes × Bytes) → Option (Bytes × Bytes)
and_before c none = none
and_before c (some (user, group)) = some (c ∷ user, group)

unfoldable pub split_colon : Bytes → Option (Bytes × Bytes)
split_colon [] = none
split_colon (c ∷ s) =
    let rest = and_before c (split_colon s) in if c == b':' then some ([], s) else rest

abbrev pub both_ids : Result ℕ → Result ℕ → Result (ℕ × ℕ)
both_ids (err e) group = err e
both_ids (ok uid) (err e) = err e
both_ids (ok uid) (ok gid) = ok (uid, gid)

module _ (getpwnam getgrnam : Bytes → Option ℕ) where
  abbrev pub ids_of : Option (Bytes × Bytes) → Result (ℕ × ℕ)
  ids_of none = err einval
  ids_of (some (user, group)) = both_ids (parse_id getpwnam user) (parse_id getgrnam group)

  unfoldable pub parse_owner : Bytes → Result (ℕ × ℕ)
  unfolding parse_id split_colon
  parse_owner s = ids_of (split_colon s)

-- strtoul in base 8, as in base 10.
abbrev pub is_octal : ℕ → Bool
is_octal c = leb b'0' c && leb c b'7'

unfoldable pub scan_octal : ℕ → Bytes → ℕ × Bytes
scan_octal n [] = (n, [])
scan_octal n (c ∷ s) =
    let more = scan_octal (n * 8 + (c - b'0')) s in if is_octal c then more else (n, c ∷ s)

unfoldable pub unsigned_octal : Bool → Bytes → Option (Bool × ℕ × Bytes)
unfolding scan_octal
unsigned_octal negative [] = none
unsigned_octal negative (c ∷ s) =
    if is_octal c then (let (n, rest) = scan_octal 0 (c ∷ s) in some (negative, n, rest)) else none

unfoldable pub signed_octal : Bytes → Option (Bool × ℕ × Bytes)
unfolding unsigned_octal
signed_octal [] = none
signed_octal (c ∷ s) =
    if c == b'-'
    then unsigned_octal true s
    else if c == b'+'
    then unsigned_octal false s
    else unsigned_octal false (c ∷ s)

abbrev pub mode_value : Result ℕ → Result ℕ
mode_value (err e) = err einval
mode_value (ok v) = ok (v % 4294967296)

-- The tests of errno and `*end`; where no digit stands, `end` is the text, which may be empty.
abbrev pub mode_of : Bytes → Option (Bool × ℕ × Bytes) → Result ℕ
mode_of text none = if length text == 0 then ok 0 else err einval
mode_of text (some (negative, n, [])) = mode_value (strtoul_value negative n)
mode_of text (some (negative, n, c ∷ rest)) = err einval

unfoldable pub parse_mode : Bytes → Result ℕ
unfolding signed_octal skip_space
parse_mode text = mode_of text (signed_octal (skip_space text))

-- How main() ends before start_daemon, or the options that start_daemon gets.
pub data Start : Type 0 where
  exits : ℕ → Start
  starts : DaemonOpts → Start

-- The names of users and groups, and what freopen(3) of the log file gives.
pub record System : Type 0 where
  pub getpwnam : Bytes → Option ℕ
  pub getgrnam : Bytes → Option ℕ
  pub freopen : Bytes → Result (Unit {0})

module _ (sys : System) where
  abbrev pub with_ids : Settings → ℕ → Result (ℕ × ℕ) → Start
  with_ids s mode' (err e) = exits e
  with_ids s mode' (ok (uid', gid')) = starts (record {
    tmpdir = s.opt_tmpdir;
    server = s.opt_server;
    path = s.opt_path;
    mode = mode';
    uid = uid';
    gid = gid';
    con = s.opt_con;
  })

  abbrev pub with_mode : Settings → Result ℕ → Start
  with_mode s (err e) = exits e
  with_mode s (ok mode') =
      with_ids s mode' (parse_owner sys.getpwnam sys.getgrnam s.opt_sock_own_str)

  abbrev pub with_log : Settings → Result (Unit {0}) → Start
  with_log s (err e) = exits e
  with_log s (ok _) = with_mode s (parse_mode s.opt_sock_mode_str)

  abbrev pub log_opened : Option Bytes → Result (Unit {0})
  log_opened none = ok tt
  log_opened (some file) = sys.freopen file

  abbrev pub with_settings : ℕ × Option Settings → Start
  with_settings (code, none) = exits code
  with_settings (code, some s) = with_log s (log_opened s.opt_logfile)

  unfoldable pub daemon_main : Bytes → List Opt → Start
  unfolding read_options parse_owner parse_mode
  daemon_main default_server os = with_settings (read_options os (default_settings default_server))
