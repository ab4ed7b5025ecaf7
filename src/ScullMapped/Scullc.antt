-- ===== src/ScullMapped/Scullc.antt =====
-- LinuxDeviceDrivers3Ed/scullc/main.c: quanta from a slab cache.
use leipocode.Base.{ℕ, Bool, List}
use leipocode.Kernel.{Ret, Copy, File}
use leipocode.Scull.{Outcome, Offset, Whence, scull_llseek}
use leipocode.Scull.Ioctl.{Arg}
use leipocode.ScullMapped.{Dev, Defaults, Aio, core, trim, open_dev, read_dev, write_dev, defer_op}
use leipocode.ScullMapped.Ioctl.{Command, Reply, dev_ioctl}

abbrev pub scullc_start : Defaults
scullc_start = record { unit = 4000; qset = 500 }

unfoldable pub scullc_trim : Defaults → Dev → Ret × Dev
unfolding trim
scullc_trim = trim

unfoldable pub scullc_open : Defaults → File → (signal : Bool) → Dev → Ret × Dev
unfolding open_dev
scullc_open = open_dev

unfoldable pub scullc_read :
    (signal : Bool) (count : ℕ) → Copy → List Bool → (pos : ℕ) (at_call d : Dev) → Outcome
unfolding read_dev
scullc_read signal count user mem pos at_call d =
    read_dev at_call.unit at_call.qset signal count user mem pos (core at_call.unit d)

-- `fresh` is an object of the cache, and `p.unit` is `scullc_quantum`.
unfoldable pub scullc_write :
    Defaults
    → (signal : Bool) (src : List ℕ) → Copy
    → List Bool
    → (fresh : List ℕ) (pos : ℕ) (at_call d : Dev) → Outcome
unfolding write_dev
scullc_write p signal src user mem fresh pos at_call d =
    write_dev at_call.unit at_call.qset p.unit signal src user mem fresh pos (core at_call.unit d)

unfoldable pub scullc_ioctl : Command → Arg → Defaults → Reply
unfolding dev_ioctl
scullc_ioctl = dev_ioctl scullc_start

unfoldable pub scullc_llseek : Offset → Whence → (pos : ℕ) → Dev → Ret × ℕ
unfolding scull_llseek
scullc_llseek off whence pos d = scull_llseek off whence pos (core d.unit d)

unfoldable pub scullc_defer_op : (sync memory : Bool) → Outcome → Aio
unfolding defer_op
scullc_defer_op = defer_op

unfoldable pub scullc_aio_read :
    (sync memory signal : Bool) (count : ℕ) → Copy → List Bool → (pos : ℕ) (at_call d : Dev) → Aio
unfolding scullc_defer_op scullc_read
scullc_aio_read sync memory signal count user mem pos at_call d =
    scullc_defer_op sync memory (scullc_read signal count user mem pos at_call d)

unfoldable pub scullc_aio_write :
    (sync memory : Bool)
    → Defaults
    → (signal : Bool) (src : List ℕ) → Copy
    → List Bool
    → (fresh : List ℕ) (pos : ℕ) (at_call d : Dev) → Aio
unfolding scullc_defer_op scullc_write
scullc_aio_write sync memory p signal src user mem fresh pos at_call d =
    scullc_defer_op sync memory (scullc_write p signal src user mem fresh pos at_call d)
