-- ===== src/Base/Codes.antt =====
-- Return codes. The kernel returns a count, a descriptor or 0 on success and a negated `errno`
-- number on failure; the numbers themselves come from the C library and are never compared, so a
-- code is one of two constructors.
use Prim.Native.Nat.{ℕ}

-- The `errno` values that the kernel names. `efatfs r` is `EFATFS_START + r`.
pub data Errno : Type 0 where
  enoent eio enoexec ebadf enomem eexist einval enfile emfile espipe erofs : Errno
  emsgsize edestaddrreq ehostunreach etimedout : Errno
  efatfs : ℕ → Errno

-- `val n` is the result `n`, and `err e` the result `-e`.
pub data Ret : Type 0 where
  val : ℕ → Ret
  err : Errno → Ret
