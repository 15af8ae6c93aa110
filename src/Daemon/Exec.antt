-- ===== src/Daemon/Exec.antt =====
-- exec_wrapper.c: a program is run in a child process and waited for.
use dumbos_dumbos.Base.{
  ℕ, ◌+◌, ◌≡◌, refl, sym, ◌↔◌, List, [], ◌∷◌, Option, none, some, Result, ok, err, err-ne-ok,
  ok-injective,
}
use dumbos_dumbos.Base.Errno.{eio}

-- What a blocking call meets before it comes to its end.
pub data Interruption : Type 0 where
  interrupted : Interruption
  fails : ℕ → Interruption

-- How a process ends.
pub data Exit : Type 0 where
  exited : ℕ → Exit
  signaled : ℕ → Exit

-- How much of the errno of a failed execv(3) comes through the pipe.
pub data Sent : Type 0 where
  all_sent some_sent none_sent : Sent

-- What becomes of the child: execv(3) fails with an errno, or the program runs and ends.
pub data Fate : Type 0 where
  not_run : ℕ → Sent → Fate
  runs : Exit → Fate

-- How the calls of the parent end.
pub record Spawn : Type 0 where
  pub pipe : Result (Unit {0})
  pub cloexec : Result (Unit {0})
  pub forked : Result (Unit {0})
  pub reads : List Interruption
  pub waits : List Interruption
  pub fate : Fate

-- The loop around read(2) or waitpid(2): a signal repeats it.
unfoldable pub retry : List Interruption → Option ℕ
retry [] = none
retry (interrupted ∷ is) = retry is
retry (fails e ∷ is) = some e

-- What WEXITSTATUS or the signal gives.
abbrev pub status_of : Exit → ℕ
status_of (exited n) = n
status_of (signaled n) = 128 + n

abbrev pub waited : Option ℕ → Result ℕ → Result ℕ
waited none r = r
waited (some e) r = err e

-- Behind the read: an errno, the end of the pipe, or a part of an errno. A child whose execv(3) failed
-- exits with 127.
abbrev pub read_done : List Interruption → Fate → Result ℕ
read_done waits (runs x) = waited (retry waits) (ok (status_of x))
read_done waits (not_run e all_sent) = waited (retry waits) (err e)
read_done waits (not_run e some_sent) = err eio
read_done waits (not_run e none_sent) = waited (retry waits) (ok 127)

abbrev pub if_fine : Result (Unit {0}) → Result ℕ → Result ℕ
if_fine (ok _) r = r
if_fine (err e) r = err e

-- A read that fails is reported when the child has been waited for, however that ends.
unfoldable pub execv_wrapper : Spawn → Result ℕ
unfolding retry
execv_wrapper s =
    if_fine s.pipe
      (if_fine s.cloexec (if_fine s.forked (waited (retry s.reads) (read_done s.waits s.fate))))

-- No call of the parent fails.
abbrev pub IsUndisturbed : Spawn → Type 0
IsUndisturbed s =
    (s.pipe ≡ ok tt)
    × (s.cloexec ≡ ok tt)
    × (s.forked ≡ ok tt)
    × (retry s.reads ≡ none)
    × (retry s.waits ≡ none)

if_fine-ok :
    (c : Result (Unit {0})) (r : Result ℕ) (n : ℕ) → if_fine c r ≡ ok n → (c ≡ ok tt) × (r ≡ ok n)
if_fine-ok (ok _) r n h = (refl, h)
if_fine-ok (err e) r n h = absurd (err-ne-ok h)

waited-ok : (o : Option ℕ) (r : Result ℕ) (n : ℕ) → waited o r ≡ ok n → (o ≡ none) × (r ≡ ok n)
waited-ok none r n h = (refl, h)
waited-ok (some e) r n h = absurd (err-ne-ok h)

-- The program ran, and this is its status.
abbrev pub RanWith : Fate → ℕ → Type 0
RanWith (runs x) n = n ≡ status_of x
RanWith (not_run e sent) n = ⊥

-- The errno of an execv(3) that fails comes through the pipe, at least in part.
abbrev pub IsReported : Fate → Type 0
IsReported (runs x) = Unit
IsReported (not_run e all_sent) = Unit
IsReported (not_run e some_sent) = Unit
IsReported (not_run e none_sent) = ⊥

read_done-RanWith :
    (waits : List Interruption) (f : Fate) (n : ℕ)
    → IsReported f
    → read_done waits f ≡ ok n
    → (retry waits ≡ none) × RanWith f n
read_done-RanWith waits (runs x) n reported h =
    let (none_fails, same) = waited-ok (retry waits) (ok (status_of x)) n h in
    (none_fails, sym (ok-injective same))
read_done-RanWith waits (not_run e all_sent) n reported h =
    absurd (err-ne-ok (waited-ok (retry waits) (err e) n h).1)
read_done-RanWith waits (not_run e some_sent) n reported h = absurd (err-ne-ok h)
read_done-RanWith waits (not_run e none_sent) n reported h = absurd reported

read_done-ok :
    (waits : List Interruption) (f : Fate) (n : ℕ)
    → retry waits ≡ none
    → RanWith f n
    → read_done waits f ≡ ok n
read_done-ok waits (runs x) n fine ran = rw (fine, ran) refl
read_done-ok waits (not_run e sent) n fine ran = absurd ran

-- A status is returned exactly when no call of the parent failed and the program ran, and it is the
-- exit status of the program, or 128 and the signal that ended it; so a program that could not be
-- started is an error, when its errno comes through the pipe.
pub execv_wrapper_iff :
    (s : Spawn) (n : ℕ)
    → IsReported s.fate
    → (execv_wrapper s ≡ ok n) ↔ (IsUndisturbed s × RanWith s.fate n)
unfolding execv_wrapper
execv_wrapper_iff s n reported = (
  λ h.
      let rest = waited (retry s.reads) (read_done s.waits s.fate) in
      let (p, h1) = if_fine-ok s.pipe (if_fine s.cloexec (if_fine s.forked rest)) n h in
      let (c, h2) = if_fine-ok s.cloexec (if_fine s.forked rest) n h1 in
      let (f, h3) = if_fine-ok s.forked rest n h2 in
      let (r, h4) = waited-ok (retry s.reads) (read_done s.waits s.fate) n h3 in
      let (w, ran) = read_done-RanWith s.waits s.fate n reported h4 in ((p, c, f, r, w), ran),
  λ ((p, c, f, r, w), ran). rw (p, c, f, r) (read_done-ok s.waits s.fate n w ran),
)
