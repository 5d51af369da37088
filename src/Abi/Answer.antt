-- ===== src/Abi/Answer.antt =====
-- What a Linux system call returns in r0: a value, or the negative of an error number.
use alpine_on_qnx.Prelude.{ℕ}
use alpine_on_qnx.Abi.Errno.{Errno, linux_errno_number}

pub data Answer : Type 0 where
  value : ℕ → Answer
  error : ℕ → Answer

-- `-(int32_t)linux_errno_number(errno)`
abbrev pub from_errno : Errno → Answer
from_errno e = error (linux_errno_number e)

-- -EINVAL, -ENOMEM, -EPERM, -ESRCH, -EAGAIN, -EFAULT and -38 (ENOSYS). These numbers are the same on the host and on Linux.
abbrev pub einval : Answer
einval = error 22

abbrev pub eagain : Answer
eagain = error 11

abbrev pub efault : Answer
efault = error 14

abbrev pub enosys : Answer
enosys = error 38

abbrev pub enomem : Answer
enomem = error 12

abbrev pub eperm : Answer
eperm = error 1

abbrev pub esrch : Answer
esrch = error 3
