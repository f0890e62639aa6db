-- ===== src/Wasi/Errno.antt =====
-- wasi/def.h: `__wasi_errno_t`.
pub mod Returned
use kernel_wasm.Base.{ℕ, zero, suc, ◌≡◌, refl, Option, none, some, List, [], ◌∷◌, arith}

abbrev nth : {A : Type 0} → List A → ℕ → Option A
nth [] n = none
nth (x ∷ xs) zero = some x
nth (x ∷ xs) (suc n) = nth xs n

-- `__WASI_ESUCCESS` … `__WASI_ENOTCAPABLE`.
pub data Errno : Type 0 where
  esuccess e2big eacces eaddrinuse eaddrnotavail eafnosupport eagain ealready ebadf ebadmsg : Errno
  ebusy ecanceled echild econnaborted econnrefused econnreset edeadlk edestaddrreq edom : Errno
  edquot eexist efault efbig ehostunreach eidrm eilseq einprogress eintr einval eio eisconn : Errno
  eisdir eloop emfile emlink emsgsize emultihop enametoolong enetdown enetreset enetunreach : Errno
  enfile enobufs enodev enoent enoexec enolck enolink enomem enomsg enoprotoopt enospc : Errno
  enosys enotconn enotdir enotempty enotrecoverable enotsock enotsup enotty enxio eoverflow : Errno
  eownerdead eperm epipe eproto eprotonosupport eprototype erange erofs espipe esrch estale : Errno
  etimedout etxtbsy exdev enotcapable : Errno

-- The `uint16_t` that each stands for.
unfoldable pub errno_code : Errno → ℕ
errno_code esuccess = 0
errno_code e2big = 1
errno_code eacces = 2
errno_code eaddrinuse = 3
errno_code eaddrnotavail = 4
errno_code eafnosupport = 5
errno_code eagain = 6
errno_code ealready = 7
errno_code ebadf = 8
errno_code ebadmsg = 9
errno_code ebusy = 10
errno_code ecanceled = 11
errno_code echild = 12
errno_code econnaborted = 13
errno_code econnrefused = 14
errno_code econnreset = 15
errno_code edeadlk = 16
errno_code edestaddrreq = 17
errno_code edom = 18
errno_code edquot = 19
errno_code eexist = 20
errno_code efault = 21
errno_code efbig = 22
errno_code ehostunreach = 23
errno_code eidrm = 24
errno_code eilseq = 25
errno_code einprogress = 26
errno_code eintr = 27
errno_code einval = 28
errno_code eio = 29
errno_code eisconn = 30
errno_code eisdir = 31
errno_code eloop = 32
errno_code emfile = 33
errno_code emlink = 34
errno_code emsgsize = 35
errno_code emultihop = 36
errno_code enametoolong = 37
errno_code enetdown = 38
errno_code enetreset = 39
errno_code enetunreach = 40
errno_code enfile = 41
errno_code enobufs = 42
errno_code enodev = 43
errno_code enoent = 44
errno_code enoexec = 45
errno_code enolck = 46
errno_code enolink = 47
errno_code enomem = 48
errno_code enomsg = 49
errno_code enoprotoopt = 50
errno_code enospc = 51
errno_code enosys = 52
errno_code enotconn = 53
errno_code enotdir = 54
errno_code enotempty = 55
errno_code enotrecoverable = 56
errno_code enotsock = 57
errno_code enotsup = 58
errno_code enotty = 59
errno_code enxio = 60
errno_code eoverflow = 61
errno_code eownerdead = 62
errno_code eperm = 63
errno_code epipe = 64
errno_code eproto = 65
errno_code eprotonosupport = 66
errno_code eprototype = 67
errno_code erange = 68
errno_code erofs = 69
errno_code espipe = 70
errno_code esrch = 71
errno_code estale = 72
errno_code etimedout = 73
errno_code etxtbsy = 74
errno_code exdev = 75
errno_code enotcapable = 76

-- The errors in the order of their codes.
abbrev errnos : List Errno
errnos =
    esuccess ∷ e2big ∷ eacces ∷ eaddrinuse ∷ eaddrnotavail ∷ eafnosupport ∷ eagain ∷ ealready
    ∷ ebadf ∷ ebadmsg ∷ ebusy ∷ ecanceled ∷ echild ∷ econnaborted ∷ econnrefused ∷ econnreset
    ∷ edeadlk ∷ edestaddrreq ∷ edom ∷ edquot ∷ eexist ∷ efault ∷ efbig ∷ ehostunreach ∷ eidrm
    ∷ eilseq ∷ einprogress ∷ eintr ∷ einval ∷ eio ∷ eisconn ∷ eisdir ∷ eloop ∷ emfile ∷ emlink
    ∷ emsgsize ∷ emultihop ∷ enametoolong ∷ enetdown ∷ enetreset ∷ enetunreach ∷ enfile ∷ enobufs
    ∷ enodev ∷ enoent ∷ enoexec ∷ enolck ∷ enolink ∷ enomem ∷ enomsg ∷ enoprotoopt ∷ enospc ∷ enosys
    ∷ enotconn ∷ enotdir ∷ enotempty ∷ enotrecoverable ∷ enotsock ∷ enotsup ∷ enotty ∷ enxio
    ∷ eoverflow ∷ eownerdead ∷ eperm ∷ epipe ∷ eproto ∷ eprotonosupport ∷ eprototype ∷ erange
    ∷ erofs ∷ espipe ∷ esrch ∷ estale ∷ etimedout ∷ etxtbsy ∷ exdev ∷ enotcapable ∷ []

-- The error with a code, if there is one.
errno_of : ℕ → Option Errno
errno_of n = nth errnos n

errno_of-errno_code : (e : Errno) → errno_of (errno_code e) ≡ some e
unfolding errno_of errno_code
errno_of-errno_code e = ground arith
