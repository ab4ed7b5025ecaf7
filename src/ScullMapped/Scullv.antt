-- ===== src/ScullMapped/Scullv.antt =====
-- LinuxDeviceDrivers3Ed/scullv/main.c: quanta of 2 ^ order pages from vmalloc.
use leipocode.Base.{ℕ, ◌*◌, ◌^◌, Bool, List, ◌==◌, if◌then◌else◌, replicate}
use leipocode.Kernel.{Ret, Copy, File}
use leipocode.Scull.{Outcome, Offset, Whence, place, scull_llseek}
use leipocode.Scull.Ioctl.{Arg}
use leipocode.ScullMapped.{
  Dev, Defaults, Aio, page_size, core, trim, open_dev, read_dev, write_dev, defer_op,
}
use leipocode.ScullMapped.Ioctl.{Command, Reply, dev_ioctl}

abbrev pub scullv_start : Defaults
scullv_start = record { unit = 4; qset = 500 }

unfoldable pub scullv_trim : Defaults → Dev → Ret × Dev
unfolding trim
scullv_trim = trim

unfoldable pub scullv_open : Defaults → File → (signal : Bool) → Dev → Ret × Dev
unfolding open_dev
scullv_open = open_dev

unfoldable pub scullv_read :
    (signal : Bool) (count : ℕ) → Copy → List Bool → (pos : ℕ) (at_call d : Dev) → Outcome
unfolding read_dev
scullv_read signal count user mem pos at_call d =
    read_dev (page_size * 2 ^ at_call.unit) at_call.qset signal count user mem pos
      (core (page_size * 2 ^ at_call.unit) d)

-- `dptr->order`, the order of the item that a position lies in: the items behind the device are
-- cleared when they are allocated, and nothing sets their order.
abbrev pub item_order : (pos : ℕ) (at_call d : Dev) → ℕ
item_order pos at_call d =
    if (place (page_size * 2 ^ at_call.unit) at_call.qset pos).item == 0 then d.unit else 0

-- Memory from vmalloc that holds `byte` everywhere. All bytes of the block are cleared.
unfoldable pub scullv_write :
    (signal : Bool) (src : List ℕ) → Copy → List Bool → (byte pos : ℕ) (at_call d : Dev) → Outcome
unfolding write_dev place
scullv_write signal src user mem byte pos at_call d =
    let size = page_size * 2 ^ item_order pos at_call d in
    write_dev (page_size * 2 ^ at_call.unit) at_call.qset size signal src user mem
      (replicate size byte) pos (core (page_size * 2 ^ at_call.unit) d)

unfoldable pub scullv_ioctl : Command → Arg → Defaults → Reply
unfolding dev_ioctl
scullv_ioctl = dev_ioctl scullv_start

unfoldable pub scullv_llseek : Offset → Whence → (pos : ℕ) → Dev → Ret × ℕ
unfolding scull_llseek
scullv_llseek off whence pos d = scull_llseek off whence pos (core d.unit d)

unfoldable pub scullv_defer_op : (sync memory : Bool) → Outcome → Aio
unfolding defer_op
scullv_defer_op = defer_op

unfoldable pub scullv_aio_read :
    (sync memory signal : Bool) (count : ℕ) → Copy → List Bool → (pos : ℕ) (at_call d : Dev) → Aio
unfolding scullv_defer_op scullv_read
scullv_aio_read sync memory signal count user mem pos at_call d =
    scullv_defer_op sync memory (scullv_read signal count user mem pos at_call d)

unfoldable pub scullv_aio_write :
    (sync memory signal : Bool) (src : List ℕ)
    → Copy
    → List Bool
    → (byte pos : ℕ) (at_call d : Dev) → Aio
unfolding scullv_defer_op scullv_write
scullv_aio_write sync memory signal src user mem byte pos at_call d =
    scullv_defer_op sync memory (scullv_write signal src user mem byte pos at_call d)
