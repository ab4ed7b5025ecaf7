-- ===== src/ScullMapped/Sculld.antt =====
-- LinuxDeviceDrivers3Ed/sculld/main.c: quanta of 2 ^ order pages.
use leipocode.Base.{ℕ, ◌*◌, ◌^◌, Bool, List, ◌==◌, if◌then◌else◌, replicate}
use leipocode.Kernel.{Ret, Copy, File}
use leipocode.Scull.{Outcome, Offset, Whence, place, scull_llseek}
use leipocode.Scull.Ioctl.{Arg}
use leipocode.ScullMapped.{
  Dev, Defaults, Aio, page_size, core, trim, open_dev, read_dev, write_dev, defer_op,
}
use leipocode.ScullMapped.Ioctl.{Command, Reply, dev_ioctl}

abbrev pub sculld_start : Defaults
sculld_start = record { unit = 0; qset = 500 }

unfoldable pub sculld_trim : Defaults → Dev → Ret × Dev
unfolding trim
sculld_trim = trim

unfoldable pub sculld_open : Defaults → File → (signal : Bool) → Dev → Ret × Dev
unfolding open_dev
sculld_open = open_dev

unfoldable pub sculld_read :
    (signal : Bool) (count : ℕ) → Copy → List Bool → (pos : ℕ) (at_call d : Dev) → Outcome
unfolding read_dev
sculld_read signal count user mem pos at_call d =
    read_dev (page_size * 2 ^ at_call.unit) at_call.qset signal count user mem pos
      (core (page_size * 2 ^ at_call.unit) d)

-- `dptr->order`, the order of the item that a position lies in: the items behind the device are
-- cleared when they are allocated, and nothing sets their order.
abbrev pub item_order : (pos : ℕ) (at_call d : Dev) → ℕ
item_order pos at_call d =
    if (place (page_size * 2 ^ at_call.unit) at_call.qset pos).item == 0 then d.unit else 0

-- A block of pages that holds `byte` everywhere. All bytes of the block are cleared.
unfoldable pub sculld_write :
    (signal : Bool) (src : List ℕ) → Copy → List Bool → (byte pos : ℕ) (at_call d : Dev) → Outcome
unfolding write_dev place
sculld_write signal src user mem byte pos at_call d =
    let size = page_size * 2 ^ item_order pos at_call d in
    write_dev (page_size * 2 ^ at_call.unit) at_call.qset size signal src user mem
      (replicate size byte) pos (core (page_size * 2 ^ at_call.unit) d)

unfoldable pub sculld_ioctl : Command → Arg → Defaults → Reply
unfolding dev_ioctl
sculld_ioctl = dev_ioctl sculld_start

unfoldable pub sculld_llseek : Offset → Whence → (pos : ℕ) → Dev → Ret × ℕ
unfolding scull_llseek
sculld_llseek off whence pos d = scull_llseek off whence pos (core d.unit d)

unfoldable pub sculld_defer_op : (sync memory : Bool) → Outcome → Aio
unfolding defer_op
sculld_defer_op = defer_op

unfoldable pub sculld_aio_read :
    (sync memory signal : Bool) (count : ℕ) → Copy → List Bool → (pos : ℕ) (at_call d : Dev) → Aio
unfolding sculld_defer_op sculld_read
sculld_aio_read sync memory signal count user mem pos at_call d =
    sculld_defer_op sync memory (sculld_read signal count user mem pos at_call d)

unfoldable pub sculld_aio_write :
    (sync memory signal : Bool) (src : List ℕ)
    → Copy
    → List Bool
    → (byte pos : ℕ) (at_call d : Dev) → Aio
unfolding sculld_defer_op sculld_write
sculld_aio_write sync memory signal src user mem byte pos at_call d =
    sculld_defer_op sync memory (sculld_write signal src user mem byte pos at_call d)
