-- ===== src/Log.antt =====
-- common.c, set_log_verbosity, with the levels and names of common.h.
use dumbos_dumbos.Base.{
  ℕ, ◌+◌, Bool, ◌&&◌, map, Bytes, codes, streq, Result, ok, err, leb, if◌then◌else◌, ◌≡◌,
}
use dumbos_dumbos.Base.Errno.{einval}

-- tolower(3) in the C locale.
unfoldable pub tolower : ℕ → ℕ
tolower c = if leb b'A' c && leb c b'Z' then c + 32 else c

-- `!strcasecmp(a, b)`
unfoldable pub strcaseeq : Bytes → Bytes → Bool
strcaseeq a b = streq (map tolower a) (map tolower b)

-- The new value of log_verbosity; on an error it keeps its value.
unfoldable pub set_log_verbosity : Bytes → Result ℕ
set_log_verbosity lvl =
    if strcaseeq (codes "none") lvl
    then ok 0
    else if strcaseeq (codes "fatal") lvl
    then ok 7
    else if strcaseeq (codes "error") lvl
    then ok 124
    else if strcaseeq (codes "warn") lvl
    then ok 200
    else if strcaseeq (codes "normal") lvl
    then ok 387
    else if strcaseeq (codes "verbose") lvl
    then ok 1244
    else if strcaseeq (codes "debug") lvl
    then ok 4732
    else if strcaseeq (codes "max") lvl
    then ok 9999
    else err einval

-- Names that differ only in the case of their letters set the same level, or are refused alike.
pub set_log_verbosity_case :
    (a b : Bytes) → map tolower a ≡ map tolower b → set_log_verbosity a ≡ set_log_verbosity b
unfolding set_log_verbosity strcaseeq
set_log_verbosity_case a b h = rw h
