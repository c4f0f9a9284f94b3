-- ===== src/Errno.antt =====
-- Linux error numbers: src/errno.rs. A failing operation returns the negated number.
use edge_libos.Base.{negsuc, ℕ, ℤ, ◌-◌}

-- `to_ret(e)`, which the code also writes `-e`.
abbrev pub to_ret : ℕ → ℤ
to_ret e = negsuc (e - 1)

abbrev pub eperm : ℕ
eperm = 1

abbrev pub enoent : ℕ
enoent = 2

abbrev pub esrch : ℕ
esrch = 3

abbrev pub eio : ℕ
eio = 5

abbrev pub ebadf : ℕ
ebadf = 9

abbrev pub echild : ℕ
echild = 10

abbrev pub eagain : ℕ
eagain = 11

abbrev pub enomem : ℕ
enomem = 12

abbrev pub eacces : ℕ
eacces = 13

abbrev pub efault : ℕ
efault = 14

abbrev pub eexist : ℕ
eexist = 17

abbrev pub enotdir : ℕ
enotdir = 20

abbrev pub einval : ℕ
einval = 22

abbrev pub espipe : ℕ
espipe = 29

abbrev pub enosys : ℕ
enosys = 38

abbrev pub eopnotsupp : ℕ
eopnotsupp = 95

abbrev pub etimedout : ℕ
etimedout = 110

abbrev pub eloop : ℕ
eloop = 40

abbrev pub enotty : ℕ
enotty = 25

abbrev pub eisdir : ℕ
eisdir = 21

abbrev pub erange : ℕ
erange = 34

abbrev pub enametoolong : ℕ
enametoolong = 36

abbrev pub enotempty : ℕ
enotempty = 39

abbrev pub eaddrinuse : ℕ
eaddrinuse = 98

abbrev pub eaddrnotavail : ℕ
eaddrnotavail = 99
