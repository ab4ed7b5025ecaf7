-- ===== src/Kernel.antt =====
-- What the drivers of LinuxDeviceDrivers3Ed exchange with the kernel: error codes, the answers of
-- file operations, the outcome of copies from and to user memory, and the flags of open files.
use leipocode.Base.{ℕ, ◌+◌, ◌-◌, ◌%◌, ◌^◌, Bool, List, ◌++◌, take, replicate, length}

-- The error codes that the drivers return, negated.
pub data Errno : Type 0 where
  erestartsys eagain efault enomem einval ebusy enotty eperm enodev eiocbqueued eopnotsupp eio :
      Errno

-- `ssize_t`: a count, or an error code.
pub data Ret : Type 0 where
  returns : ℕ → Ret
  fails : Errno → Ret

-- `copy_to_user`, `copy_from_user`: everything is copied, or the copy stops behind `n` bytes.
pub data Copy : Type 0 where
  all : Copy
  stops_after : ℕ → Copy

-- What `copy_from_user` leaves in the destination: behind a fault the rest is filled with zeros.
abbrev pub copied : Copy → List ℕ → List ℕ
copied all src = src
copied (stops_after n) src = take (length src) (take n src ++ replicate (length src) 0)

-- The part of `struct file` that the drivers read: `f_flags & O_ACCMODE`, `f_flags & O_NONBLOCK`,
-- and the bits of `f_mode`.
pub record File : Type 0 where
  pub write_only : Bool
  pub nonblock : Bool
  pub mode_read : Bool
  pub mode_write : Bool

-- `int` counters that go up and down by one.
abbrev pub inc : ℕ → ℕ
inc n = (n + 1) % 2 ^ 32

abbrev pub dec : ℕ → ℕ
dec n = (n + 2 ^ 32 - 1) % 2 ^ 32

-- PAGE_SIZE; a page has 2 ^ PAGE_SHIFT bytes.
abbrev pub page_size : ℕ
page_size = 4096
