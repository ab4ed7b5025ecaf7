-- ===== src/Sbull/Media.antt =====
-- The users, the timer and the change of the medium of LinuxDeviceDrivers3Ed/sbull/sbull.c.
use leipocode.Base.{
  ℕ, ◌+◌, ◌-◌, ◌*◌, ◌/◌, ◌%◌, ◌^◌, Bool, true, false, not, Option, none, some, ◌==◌, if◌then◌else◌,
  replicate, write_at,
}
use leipocode.Kernel.{Ret, returns, fails, efault, enotty}
use leipocode.Sbull.{Disk, kernel_sector_size}

-- `short` counters.
abbrev pub up16 : ℕ → ℕ
up16 n = (n + 1) % 2 ^ 16

abbrev pub down16 : ℕ → ℕ
down16 n = (n + 2 ^ 16 - 1) % 2 ^ 16

unfoldable pub sbull_media_changed : Disk → Bool
sbull_media_changed d = d.media_change

unfoldable pub sbull_revalidate : Disk → Disk
sbull_revalidate d =
    if d.media_change
    then record d { media_change = false; bytes = write_at 0 (replicate d.size 0) d.bytes }
    else d

-- `check_disk_change` is the kernel's.
unfoldable pub sbull_open : (check_disk_change : Disk → Disk) → Disk → Disk
sbull_open check_disk_change d =
    let idle = record d { timer = false } in
    let e = if d.users == 0 then check_disk_change idle else idle in
    record e { users = up16 e.users }

unfoldable pub sbull_release : Disk → Disk
sbull_release d =
    let n = down16 d.users in record d { users = n; timer = if n == 0 then true else d.timer }

-- The timer fires; the array is there.
unfoldable pub sbull_invalidate : Disk → Disk
sbull_invalidate d =
    let e = record d { timer = false } in
    if not (d.users == 0) then e else record e { media_change = true }

-- `struct hd_geometry`; `cylinders` is an `unsigned short`.
pub record Geometry : Type 0 where
  pub cylinders : ℕ
  pub heads : ℕ
  pub sectors : ℕ
  pub start : ℕ

abbrev pub geometry : (hardsect_size : ℕ) → Disk → Geometry
geometry hardsect_size d =
    let size = d.size * (hardsect_size / kernel_sector_size) in
    record { cylinders = (size - size % 64) / 2 ^ 6 % 2 ^ 16; heads = 4; sectors = 16; start = 4 }

-- The commands: HDIO_GETGEO, and all others.
pub data Command : Type 0 where
  hdio_getgeo other : Command

-- `copied` says whether `copy_to_user` copies everything.
unfoldable pub sbull_ioctl :
    (hardsect_size : ℕ) → Command → (copied : Bool) → Disk → Ret × Option Geometry
sbull_ioctl h hdio_getgeo copied d =
    if copied then (returns 0, some (geometry h d)) else (fails efault, none)
sbull_ioctl h other copied d = (fails enotty, none)
