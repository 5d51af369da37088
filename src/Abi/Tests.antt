-- ===== src/Abi/Tests.antt =====
-- Tests of the error numbers.
use alpine_on_qnx.Prelude.{◌≡◌, refl}
use alpine_on_qnx.Abi.Errno.{linux_errno_number, eagain}

eagain_is_11 : linux_errno_number eagain ≡ 11
unfolding linux_errno_number
eagain_is_11 = refl
