-- ===== src/ScullMapped.antt =====
-- scullc, scullp, sculld and scullv of LinuxDeviceDrivers3Ed: scull devices that can be mapped, whose
-- quanta come from a slab cache, from blocks of pages, or from vmalloc. What their main.c have in
-- common stands here, and each driver in a module of its own. The device is the first item of its
-- list. `quantum` and `qset` are those that an operation reads at the call, before the semaphore.
pub mod Ioctl
pub mod Scullc
pub mod Scullp
pub mod Sculld
pub mod Scullv
pub mod Mmap
pub mod Laws
pub mod Drivers
pub mod Pages
pub mod Orders
mod Tests
use leipocode.Base.{
  ℕ, zero, suc, ◌+◌, ◌-◌, ◌*◌, ◌/◌, ◌%◌, ◌^◌, min, Bool, true, false, not, ◌&&◌, ◌||◌, Option, none,
  some, List, [], ◌∷◌, ltb, leb, ◌==◌, if◌then◌else◌, length, get_elem?, replicate, write_at,
}
pub use leipocode.Kernel.{page_size}
use leipocode.Kernel.{
  erestartsys, efault, enomem, ebusy, enotty, eiocbqueued, Ret, returns, fails, Copy, File, inc,
  dec,
}
use leipocode.Scull.{
  Qset, ScullDev, Outcome, done, overrun, undefined, Followed, Slot, hole, filled, outside, Place,
  place, computable, entry, slot, scull_follow, copy_out, copy_in, with_array, with_quantum, up,
}

-- `struct scullp_dev` and its like; `unit` is `quantum` in scullc, and `order` in the others. The
-- items are the `data` arrays of the device and of the items behind it.
pub record Dev : Type 0 where
  pub items : List Qset
  pub unit : ℕ
  pub qset : ℕ
  pub size : ℕ
  pub vmas : ℕ
  pub sem : ℕ

-- `scullp_order` and `scullp_qset`, or `scullc_quantum` and `scullc_qset`.
pub record Defaults : Type 0 where
  pub unit : ℕ
  pub qset : ℕ

-- The part of the device that a read or a write works on, with quanta of so many bytes.
abbrev pub core : (quantum : ℕ) → Dev → ScullDev
core q d = record { items = d.items; quantum = q; qset = d.qset; size = d.size; sem = d.sem }

-- The trim: not while the device is mapped. The first item stays, without its array.
unfoldable pub trim : Defaults → Dev → Ret × Dev
trim p d =
    if d.vmas == 0
    then (returns 0, record d { items = none ∷ []; size = 0; unit = p.unit; qset = p.qset })
    else (fails ebusy, d)

-- The open; `signal` says that `down_interruptible` is interrupted. What the trim returns is ignored.
unfoldable pub open_dev : Defaults → File → (signal : Bool) → Dev → Ret × Dev
unfolding trim
open_dev p f signal d =
    if not f.write_only
    then (returns 0, d)
    else if signal
    then (fails erestartsys, d)
    else let e = (trim p (record d { sem = d.sem - 1 })).1 in
      (returns 0, record e { sem = e.sem + 1 })

-- The read. Where `kmalloc` fails for an item, the NULL pointer is cleared: `overrun`.
unfoldable pub read_dev :
    (quantum qset : ℕ) (signal : Bool) (count : ℕ)
    → Copy
    → List Bool
    → (pos : ℕ) (d : ScullDev) → Outcome
unfolding scull_follow place slot computable
read_dev q n signal count user mem pos d =
    let most = if ltb d.size ((pos + count) % 2 ^ 64) then d.size - pos else count in
    let p = place q n pos in
    let r = scull_follow p.item mem d.items in
    if signal
    then done (fails erestartsys) [] pos d
    else if ltb d.size pos
    then done (returns 0) [] pos (up d)
    else if not (computable q n pos)
    then undefined
    else if not r.found
    then overrun
    else copy_out q most user p pos (record d { items = r.items }) (slot p r.items)

-- `memset (b, 0, n)`
abbrev pub cleared : ℕ → List ℕ → List ℕ
cleared n b = write_at 0 (replicate n 0) b

-- A quantum has to be allocated.
abbrev pub hollow : Slot → Bool
hollow hole = true
hollow (filled b) = false
hollow outside = false

-- The write; `fresh` is the memory for a new quantum, of which the first `clear` bytes are cleared.
unfoldable pub write_dev :
    (quantum qset clear : ℕ) (signal : Bool) (src : List ℕ)
    → Copy
    → List Bool
    → (fresh : List ℕ) (pos : ℕ) (d : ScullDev) → Outcome
unfolding scull_follow place slot computable with_array with_quantum
write_dev q n clear signal src user mem fresh pos d =
    let p = place q n pos in
    let f = scull_follow p.item mem d.items in
    let a = with_array n p f in
    let r = with_quantum p (cleared clear fresh) a in
    let e = record d { items = r.items } in
    if signal
    then done (fails erestartsys) [] pos d
    else if not (computable q n pos)
    then undefined
    else if not f.found
    then overrun
    else if r.found
    then (if ltb (length fresh) clear && hollow (slot p a.items)
        then overrun
        else copy_in q src user p pos e (slot p r.items))
    else done (fails enomem) [] pos (up e)

-- Asynchronous I/O: the call returns the result, or returns -EIOCBQUEUED and leaves a work item that
-- completes the call with the result later.
pub data Aio : Type 0 where
  at_once queued : Outcome → Aio

-- The deferral of a result: `sync` is `is_sync_kiocb`, `memory` says that `kmalloc` succeeds.
unfoldable pub defer_op : (sync memory : Bool) → Outcome → Aio
defer_op sync memory o = if sync then at_once o else if memory then queued o else at_once o
