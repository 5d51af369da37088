-- ===== src/Abi/Errno.antt =====
-- src/linux_abi.c: host error numbers, named by their C constants, and the Linux numbers that the
-- guest sees. The host's own values are not in the repository, so an error is its name.
use alpine_on_qnx.Prelude.{
  ℕ, ◌<◌, ◌≡◌, ◌≢◌, ◌⊎◌, inl, inr, refl, List, [], ◌∷◌, ◌==◌, if◌then◌else◌, arith,
}

-- The values of `errno` that `linux_errno_number` knows; `unlisted` is any other. `enone` is 0.
pub data Errno : Type 0 where
  enone : Errno
  eperm enoent esrch eintr eio enxio e2big enoexec : Errno
  ebadf echild eagain enomem eacces efault ebusy eexist : Errno
  exdev enodev enotdir eisdir einval enfile emfile enotty : Errno
  efbig enospc espipe erofs emlink epipe erange enametoolong : Errno
  enosys enotempty eloop enotsock edestaddrreq emsgsize eprototype enoprotoopt : Errno
  eprotonosupport esocktnosupport eopnotsupp epfnosupport eafnosupport eaddrinuse eaddrnotavail
        enetdown :
      Errno
  enetunreach enetreset econnaborted econnreset enobufs eisconn enotconn eshutdown : Errno
  etoomanyrefs etimedout econnrefused ehostdown ehostunreach ealready einprogress : Errno
  unlisted : Errno

-- The number that the guest's C library reads for a host error.
unfoldable pub linux_errno_number : Errno → ℕ
linux_errno_number enone = 0
linux_errno_number eperm = 1
linux_errno_number enoent = 2
linux_errno_number esrch = 3
linux_errno_number eintr = 4
linux_errno_number eio = 5
linux_errno_number enxio = 6
linux_errno_number e2big = 7
linux_errno_number enoexec = 8
linux_errno_number ebadf = 9
linux_errno_number echild = 10
linux_errno_number eagain = 11
linux_errno_number enomem = 12
linux_errno_number eacces = 13
linux_errno_number efault = 14
linux_errno_number ebusy = 16
linux_errno_number eexist = 17
linux_errno_number exdev = 18
linux_errno_number enodev = 19
linux_errno_number enotdir = 20
linux_errno_number eisdir = 21
linux_errno_number einval = 22
linux_errno_number enfile = 23
linux_errno_number emfile = 24
linux_errno_number enotty = 25
linux_errno_number efbig = 27
linux_errno_number enospc = 28
linux_errno_number espipe = 29
linux_errno_number erofs = 30
linux_errno_number emlink = 31
linux_errno_number epipe = 32
linux_errno_number erange = 34
linux_errno_number enametoolong = 36
linux_errno_number enosys = 38
linux_errno_number enotempty = 39
linux_errno_number eloop = 40
linux_errno_number enotsock = 88
linux_errno_number edestaddrreq = 89
linux_errno_number emsgsize = 90
linux_errno_number eprototype = 91
linux_errno_number enoprotoopt = 92
linux_errno_number eprotonosupport = 93
linux_errno_number esocktnosupport = 94
linux_errno_number eopnotsupp = 95
linux_errno_number epfnosupport = 96
linux_errno_number eafnosupport = 97
linux_errno_number eaddrinuse = 98
linux_errno_number eaddrnotavail = 99
linux_errno_number enetdown = 100
linux_errno_number enetunreach = 101
linux_errno_number enetreset = 102
linux_errno_number econnaborted = 103
linux_errno_number econnreset = 104
linux_errno_number enobufs = 105
linux_errno_number eisconn = 106
linux_errno_number enotconn = 107
linux_errno_number eshutdown = 108
linux_errno_number etoomanyrefs = 109
linux_errno_number etimedout = 110
linux_errno_number econnrefused = 111
linux_errno_number ehostdown = 112
linux_errno_number ehostunreach = 113
linux_errno_number ealready = 114
linux_errno_number einprogress = 115
linux_errno_number unlisted = 5

-- The error that a Linux number stands for, read back by a table of the listed ones.
abbrev pub listed : List Errno
listed =
    enone ∷ eperm ∷ enoent ∷ esrch ∷ eintr ∷ eio ∷ enxio ∷ e2big ∷ enoexec ∷ ebadf ∷ echild ∷ eagain
    ∷ enomem ∷ eacces ∷ efault ∷ ebusy ∷ eexist ∷ exdev ∷ enodev ∷ enotdir ∷ eisdir ∷ einval
    ∷ enfile ∷ emfile ∷ enotty ∷ efbig ∷ enospc ∷ espipe ∷ erofs ∷ emlink ∷ epipe ∷ erange
    ∷ enametoolong ∷ enosys ∷ enotempty ∷ eloop ∷ enotsock ∷ edestaddrreq ∷ emsgsize ∷ eprototype
    ∷ enoprotoopt ∷ eprotonosupport ∷ esocktnosupport ∷ eopnotsupp ∷ epfnosupport ∷ eafnosupport
    ∷ eaddrinuse ∷ eaddrnotavail ∷ enetdown ∷ enetunreach ∷ enetreset ∷ econnaborted ∷ econnreset
    ∷ enobufs ∷ eisconn ∷ enotconn ∷ eshutdown ∷ etoomanyrefs ∷ etimedout ∷ econnrefused ∷ ehostdown
    ∷ ehostunreach ∷ ealready ∷ einprogress ∷ []

pub find_errno : List Errno → ℕ → Errno
find_errno [] n = unlisted
find_errno (e ∷ es) n = if linux_errno_number e == n then e else find_errno es n

-- Every error is found again by its number among the errors of the table, so that no two of them
-- share a number; an error that the table does not list is EIO's.
pub linux_errno_number_lem :
    (e : Errno)
    → (find_errno listed (linux_errno_number e) ≡ e)
      ⊎ ((e ≡ unlisted) × (linux_errno_number e ≡ linux_errno_number eio))
unfolding linux_errno_number find_errno
linux_errno_number_lem unlisted = inr (refl, refl)
linux_errno_number_lem _ = inl refl

-- No error but `enone` looks like success, and every number is one that the guest takes for an
-- error (below 4096).
pub linux_errno_number_bounds :
    (e : Errno) → e ≢ enone → (0 < linux_errno_number e) × (linux_errno_number e < 4096)
unfolding linux_errno_number
linux_errno_number_bounds enone h = absurd (h refl)
linux_errno_number_bounds _ h = omega arith
