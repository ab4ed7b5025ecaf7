-- ===== src/ScullMapped/Scullp.antt =====
-- LinuxDeviceDrivers3Ed/scullp/main.c: quanta of 2 ^ order pages.
use leipocode.Base.{ℕ, ◌*◌, ◌^◌, Bool, List, ◌==◌, if◌then◌else◌, replicate}
use leipocode.Kernel.{Ret, Copy, File}
use leipocode.Scull.{Outcome, Offset, Whence, place, scull_llseek}
use leipocode.Scull.Ioctl.{Arg}
use leipocode.ScullMapped.{
  Dev, Defaults, Aio, page_size, core, trim, open_dev, read_dev, write_dev, defer_op,
}
use leipocode.ScullMapped.Ioctl.{Command, Reply, dev_ioctl}

abbrev pub scullp_start : Defaults
scullp_start = record { unit = 0; qset = 500 }

unfoldable pub scullp_trim : Defaults → Dev → Ret × Dev
unfolding trim
scullp_trim = trim

unfoldable pub scullp_open : Defaults → File → (signal : Bool) → Dev → Ret × Dev
unfolding open_dev
scullp_open = open_dev

unfoldable pub scullp_read :
    (signal : Bool) (count : ℕ) → Copy → List Bool → (pos : ℕ) (at_call d : Dev) → Outcome
unfolding read_dev
scullp_read signal count user mem pos at_call d =
    read_dev (page_size * 2 ^ at_call.unit) at_call.qset signal count user mem pos
      (core (page_size * 2 ^ at_call.unit) d)

-- `dptr->order`, the order of the item that a position lies in: the items behind the device are
-- cleared when they are allocated, and nothing sets their order.
abbrev pub item_order : (pos : ℕ) (at_call d : Dev) → ℕ
item_order pos at_call d =
    if (place (page_size * 2 ^ at_call.unit) at_call.qset pos).item == 0 then d.unit else 0

-- A block of pages that holds `byte` everywhere. All bytes of the block are cleared.
unfoldable pub scullp_write :
    (signal : Bool) (src : List ℕ) → Copy → List Bool → (byte pos : ℕ) (at_call d : Dev) → Outcome
unfolding write_dev place
scullp_write signal src user mem byte pos at_call d =
    let size = page_size * 2 ^ item_order pos at_call d in
    write_dev (page_size * 2 ^ at_call.unit) at_call.qset size signal src user mem
      (replicate size byte) pos (core (page_size * 2 ^ at_call.unit) d)

unfoldable pub scullp_ioctl : Command → Arg → Defaults → Reply
unfolding dev_ioctl
scullp_ioctl = dev_ioctl scullp_start

unfoldable pub scullp_llseek : Offset → Whence → (pos : ℕ) → Dev → Ret × ℕ
unfolding scull_llseek
scullp_llseek off whence pos d = scull_llseek off whence pos (core d.unit d)

unfoldable pub scullp_defer_op : (sync memory : Bool) → Outcome → Aio
unfolding defer_op
scullp_defer_op = defer_op

unfoldable pub scullp_aio_read :
    (sync memory signal : Bool) (count : ℕ) → Copy → List Bool → (pos : ℕ) (at_call d : Dev) → Aio
unfolding scullp_defer_op scullp_read
scullp_aio_read sync memory signal count user mem pos at_call d =
    scullp_defer_op sync memory (scullp_read signal count user mem pos at_call d)

unfoldable pub scullp_aio_write :
    (sync memory signal : Bool) (src : List ℕ)
    → Copy
    → List Bool
    → (byte pos : ℕ) (at_call d : Dev) → Aio
unfolding scullp_defer_op scullp_write
scullp_aio_write sync memory signal src user mem byte pos at_call d =
    scullp_defer_op sync memory (scullp_write signal src user mem byte pos at_call d)
