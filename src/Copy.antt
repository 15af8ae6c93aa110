-- ===== src/Copy.antt =====
-- daemon/mount_copy_ns.c: the copy of a directory tree to a disk. The source is the tree that the calls
-- on it find, with their outcomes, and the disk is an interface: its calls, and what they document.
pub mod Tree
pub mod Measure
pub mod Paths
pub mod Frame
pub mod Written
pub mod Copied
pub mod Laws
pub mod Counted
pub mod Totals
pub mod Willing
pub mod Complete
pub mod Child
pub mod Run
use dumbos_dumbos.Base.{
  ℕ, ◌≡◌, ◌≢◌, Bool, true, false, List, [], ◌∷◌, ◌++◌, Option, none, some, Bytes, Result, ok, err,
  if◌then◌else◌,
}
use dumbos_dumbos.Stream.{ReadEvent, got, read_interrupted, read_fails, WriteEvent}
use dumbos_dumbos.Daemon.SecretCode.{ends_in_slash}

-- A call that gives nothing but an errno.
abbrev pub Call : Type 0
Call = Result (Unit {0})

-- A regular file of the source: its mode and st_size, what each read(2) of its contents gives, the end
-- of which is the end of the file, and how opening and closing it end.
pub record Regular : Type 0 where
  pub mode : ℕ
  pub size : ℕ
  pub opened : Call
  pub reads : List ReadEvent
  pub closed : Call

-- A directory of the source without its entries: opendir(3) and closedir(3) with it.
pub record Directory : Type 0 where
  pub mode : ℕ
  pub opened : Call
  pub closed : Call

-- What lstat(2) finds at a path of the source: nothing, a regular file, a symbolic link with its st_size
-- and its target, a directory, or something else. A listing ends as readdir(3) ends.
mutual
  pub data Node : Type 0 where
    gone : ℕ → Node
    regular : Regular → Node
    symlink : ℕ → Result Bytes → Node
    directory : Directory → Listing → Node
    special : Node

  pub data Listing : Type 0 where
    ends : Call → Listing
    entry : Bytes → Node → Listing → Listing

-- What lies at a path of the disk.
pub data Entry : Type 0 where
  file : Bytes → Entry
  link : Bytes → Entry
  folder : Entry
  device : Entry

-- The calls on the disk that is copied to. `at` tells what lies at a path, no link followed. `open_file`
-- is open(2) with O_WRONLY, O_CREAT, O_TRUNC and O_NOFOLLOW, `writes` what the calls of write(2) for the
-- next buffer meet, and `append` the effect of the bytes that they take.
pub record Disk : Type 1 where
  pub State : Type 0
  pub at : State → Bytes → Option Entry
  pub lstat : Bytes → State → Result Entry
  pub mkdir : Bytes → ℕ → State → Call × State
  pub unlink : Bytes → State → Call × State
  pub make_link : Bytes → Bytes → State → Call × State
  pub open_file : Bytes → ℕ → State → Call × State
  pub writes : Bytes → State → List WriteEvent
  pub append : Bytes → Bytes → State → State
  pub close : Bytes → State → Call × State
  pub chmod : Bytes → ℕ → State → State

-- What these calls document: they change what lies at their path only, and make it what they are for,
-- on a disk where different paths are different files: no two names differ in their case alone where
-- the disk folds the case. An open that succeeds leaves an empty file where nothing or a regular file
-- was, not at a device.
pub record IsPosix (D : Disk) : Type 0 where
  pub mkdir_keeps :
      (p q : Bytes) (mode : ℕ) (s : D.State) → q ≢ p → D.at (D.mkdir p mode s).1 q ≡ D.at s q
  pub unlink_keeps : (p q : Bytes) (s : D.State) → q ≢ p → D.at (D.unlink p s).1 q ≡ D.at s q
  pub make_link_keeps :
      (target p q : Bytes) (s : D.State) → q ≢ p → D.at (D.make_link target p s).1 q ≡ D.at s q
  pub open_file_keeps :
      (p q : Bytes) (mode : ℕ) (s : D.State) → q ≢ p → D.at (D.open_file p mode s).1 q ≡ D.at s q
  pub append_keeps : (p q bs : Bytes) (s : D.State) → q ≢ p → D.at (D.append p bs s) q ≡ D.at s q
  pub close_keeps : (p q : Bytes) (s : D.State) → D.at (D.close p s).1 q ≡ D.at s q
  pub chmod_keeps : (p q : Bytes) (mode : ℕ) (s : D.State) → D.at (D.chmod p mode s) q ≡ D.at s q
  pub at-lstat : (p : Bytes) (s : D.State) (e : Entry) → D.lstat p s ≡ ok e → D.at s p ≡ some e
  pub at-mkdir :
      (p : Bytes) (mode : ℕ) (s : D.State)
      → (D.mkdir p mode s).0 ≡ ok tt
      → D.at (D.mkdir p mode s).1 p ≡ some folder
  pub at-make_link :
      (target p : Bytes) (s : D.State)
      → (D.make_link target p s).0 ≡ ok tt
      → D.at (D.make_link target p s).1 p ≡ some (link target)
  pub at-unlink :
      (p : Bytes) (s : D.State) → (D.unlink p s).0 ≡ ok tt → D.at (D.unlink p s).1 p ≡ none
  pub at-open_file :
      (p : Bytes) (mode : ℕ) (s : D.State)
      → D.at s p ≢ some device
      → (D.open_file p mode s).0 ≡ ok tt
      → D.at (D.open_file p mode s).1 p ≡ some (file [])
  pub at-append :
      (p c bs : Bytes) (s : D.State)
      → D.at s p ≡ some (file c)
      → D.at (D.append p bs s) p ≡ some (file (c ++ bs))

-- join_path: a slash in between, unless the parent ends in one.
abbrev pub slashed : Bytes → Bytes
slashed p = p ++ (if ends_in_slash p then [] else b'/' ∷ [])

unfoldable pub join_path : Bytes → Bytes → Bytes
join_path parent name = slashed parent ++ name

-- All bytes that a file of the source gives.
abbrev pub contents : List ReadEvent → Bytes
contents [] = []
contents (got b bs ∷ es) = b ∷ bs ++ contents es
contents (read_interrupted ∷ es) = contents es
contents (read_fails e ∷ es) = []
