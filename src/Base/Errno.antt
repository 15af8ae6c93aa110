-- ===== src/Base/Errno.antt =====
-- The errno values that the code names, as Linux numbers them.
use Prim.Native.Nat.{ℕ}

abbrev pub eperm : ℕ
eperm = 1

abbrev pub enoent : ℕ
enoent = 2

abbrev pub eio : ℕ
eio = 5

abbrev pub e2big : ℕ
e2big = 7

abbrev pub eacces : ℕ
eacces = 13

abbrev pub eexist : ℕ
eexist = 17

abbrev pub einval : ℕ
einval = 22

abbrev pub efbig : ℕ
efbig = 27

abbrev pub enospc : ℕ
enospc = 28

abbrev pub epipe : ℕ
epipe = 32

abbrev pub erange : ℕ
erange = 34

abbrev pub enametoolong : ℕ
enametoolong = 36

abbrev pub enosys : ℕ
enosys = 38

abbrev pub eproto : ℕ
eproto = 71

abbrev pub eoverflow : ℕ
eoverflow = 75

abbrev pub eusers : ℕ
eusers = 87

abbrev pub ekeyexpired : ℕ
ekeyexpired = 127

abbrev pub econnrefused : ℕ
econnrefused = 111

abbrev pub enomem : ℕ
enomem = 12

abbrev pub eloop : ℕ
eloop = 40

abbrev pub eprotonosupport : ℕ
eprotonosupport = 93

abbrev pub econnreset : ℕ
econnreset = 104

abbrev pub etimedout : ℕ
etimedout = 110

abbrev pub ehostunreach : ℕ
ehostunreach = 113

abbrev pub echild : ℕ
echild = 10

abbrev pub enotdir : ℕ
enotdir = 20

abbrev pub enotsup : ℕ
enotsup = 95

abbrev pub enodev : ℕ
enodev = 19

abbrev pub eownerdead : ℕ
eownerdead = 130
