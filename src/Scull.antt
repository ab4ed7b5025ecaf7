-- ===== src/Scull.antt =====
-- LinuxDeviceDrivers3Ed/scull/main.c and scull.h: a memory device as a list of quantum sets.
-- The list from `dev->data` on is the list of the `data` fields of its items. An operation gets the
-- answers of `kmalloc` in their order (`true` for memory, and NULL behind the last), the device at
-- the call, which `quantum` and `qset` are read from, and the device when `down_interruptible`
-- returns.
pub mod Valid
pub mod Slots
pub mod Follow
pub mod Kept
pub mod WithArray
pub mod Prepare
pub mod Enough
pub mod Places
pub mod Write
pub mod Read
pub mod Reread
pub mod Ioctl
mod Tests
use leipocode.Base.{
  ℕ, zero, suc, ◌+◌, ◌-◌, ◌*◌, ◌/◌, ◌%◌, ◌^◌, min, Bool, true, false, not, ◌&&◌, Option, none, some,
  List, [], ◌∷◌, ltb, leb, ◌==◌, if◌then◌else◌, length, get_elem?, set, take, replicate, slice,
  write_at,
}
use leipocode.Kernel.{
  erestartsys, efault, enomem, einval, Ret, returns, fails, Copy, all, stops_after, copied, File,
}

-- A quantum; `none` is NULL.
abbrev pub Quantum : Type 0
Quantum = Option (List ℕ)

-- `struct scull_qset`, the array at `data` or NULL.
abbrev pub Qset : Type 0
Qset = Option (List Quantum)

-- `struct scull_dev`
pub record ScullDev : Type 0 where
  pub items : List Qset
  pub quantum : ℕ
  pub qset : ℕ
  pub size : ℕ
  pub sem : ℕ

-- `scull_quantum`, `scull_qset` and `scull_p_buffer`
pub record Params : Type 0 where
  pub scull_quantum : ℕ
  pub scull_qset : ℕ
  pub scull_p_buffer : ℕ

-- The end of an operation: it returns, with the bytes that reached user memory, the new `*f_pos`
-- and the device; it touches memory outside an allocation; or it divides by zero, gets past the
-- range of `int`, or has a size that is negative as an `int`, which is not followed any further.
pub data Outcome : Type 0 where
  done : Ret → List ℕ → (f_pos : ℕ) → ScullDev → Outcome
  overrun : Outcome
  undefined : Outcome

abbrev pub up : ScullDev → ScullDev
up d = record d { sem = d.sem + 1 }

unfoldable pub scull_trim : Params → ScullDev → ScullDev
scull_trim p d = record d { items = []; size = 0; quantum = p.scull_quantum; qset = p.scull_qset }

-- `scull_open`; `signal` says that `down_interruptible` is interrupted.
unfoldable pub scull_open : Params → File → (signal : Bool) → ScullDev → Ret × ScullDev
unfolding scull_trim
scull_open p f signal d =
    if not f.write_only
    then (returns 0, d)
    else if signal
    then (fails erestartsys, d)
    else (returns 0, up (scull_trim p (record d { sem = d.sem - 1 })))

-- The list behind `scull_follow`, the answers of `kmalloc` that are left, and whether the item was
-- reached.
pub record Followed : Type 0 where
  pub items : List Qset
  pub mem : List Bool
  pub found : Bool

abbrev pub behind : Qset → Followed → Followed
behind x r = record r { items = x ∷ r.items }

-- `scull_follow` from an item, or from a NULL pointer, on: the item that is missing is allocated.
unfoldable pub scull_follow : ℕ → List Bool → List Qset → Followed
scull_follow n [] [] = record { items = []; mem = []; found = false }
scull_follow n (false ∷ mem) [] = record { items = []; mem = mem; found = false }
scull_follow zero (true ∷ mem) [] = record { items = none ∷ []; mem = mem; found = true }
scull_follow (suc n) (true ∷ mem) [] = behind none (scull_follow n mem [])
scull_follow zero mem (x ∷ xs) = record { items = x ∷ xs; mem = mem; found = true }
scull_follow (suc n) mem (x ∷ xs) = behind x (scull_follow n mem xs)

-- Where a position lies.
pub record Place : Type 0 where
  pub item : ℕ
  pub s_pos : ℕ
  pub q_pos : ℕ

unfoldable pub place : (quantum qset pos : ℕ) → Place
place q n pos =
    let rest = pos % (q * n) in record { item = pos / (q * n); s_pos = rest / q; q_pos = rest % q }

-- The products and quotients stay in the range of `int`, and nothing is divided by zero.
unfoldable pub computable : (quantum qset pos : ℕ) → Bool
computable q n pos = ltb 0 (q * n) && ltb (q * n) (2 ^ 31) && ltb (pos / (q * n)) (2 ^ 31)

-- `dptr->data[s_pos]`: no quantum, a quantum, or a place outside the array.
pub data Slot : Type 0 where
  hole : Slot
  filled : List ℕ → Slot
  outside : Slot

abbrev pub entry : Option Quantum → Slot
entry none = outside
entry (some none) = hole
entry (some (some b)) = filled b

abbrev pub in_array : ℕ → Option Qset → Slot
in_array s none = outside
in_array s (some none) = hole
in_array s (some (some a)) = entry (get_elem? a s)

unfoldable pub slot : Place → List Qset → Slot
slot p xs = in_array p.s_pos (get_elem? xs p.item)

-- Behind `scull_follow`, at the quantum.
abbrev pub copy_out : (quantum count : ℕ) → Copy → Place → (pos : ℕ) → ScullDev → Slot → Outcome
copy_out q count user p pos d hole = done (returns 0) [] pos (up d)
copy_out q count user p pos d outside = overrun
copy_out q count user p pos d (filled b) =
    let n = min count (q - p.q_pos) in
    if ltb (length b) (p.q_pos + n) then overrun else elim user [
      | all ↦ done (returns n) (slice b p.q_pos n) (pos + n) (up d)
      | stops_after k ↦ done (fails efault) (take k (slice b p.q_pos n)) pos (up d)
    ]

-- Behind the tests of the size.
unfoldable pub read_at :
    (quantum qset count : ℕ) → Copy → List Bool → (pos : ℕ) → ScullDev → Outcome
unfolding scull_follow place slot computable
read_at q n count user mem pos d =
    let p = place q n pos in
    let r = scull_follow p.item mem d.items in
    let e = record d { items = r.items } in
    if not (computable q n pos)
    then undefined
    else if r.found
    then copy_out q count user p pos e (slot p r.items)
    else done (returns 0) [] pos (up e)

unfoldable pub scull_read :
    (signal : Bool) (count : ℕ) → Copy → List Bool → (pos : ℕ) (at_call d : ScullDev) → Outcome
unfolding read_at
scull_read signal count user mem pos at_call d =
    let q = at_call.quantum in
    let n = at_call.qset in
    let most = if ltb d.size ((pos + count) % 2 ^ 64) then d.size - pos else count in
    if signal
    then done (fails erestartsys) [] pos d
    else if leb d.size pos
    then done (returns 0) [] pos (up d)
    else read_at q n most user mem pos d

-- `dptr->data[s_pos] = b`
unfoldable pub put_slot : Place → List ℕ → List Qset → List Qset
put_slot p b xs = elim (get_elem? xs p.item) [
  | none ↦ xs
  | some none ↦ xs
  | some (some a) ↦ set xs p.item (some (set a p.s_pos (some b)))
]

-- One `kmalloc`: the list as it was, or as `xs` with memory.
abbrev pub allocate : List Qset → Followed → List Bool → Followed
allocate xs r [] = record r { mem = []; found = false }
allocate xs r (false ∷ mem) = record r { mem = mem; found = false }
allocate xs r (true ∷ mem) = record { items = xs; mem = mem; found = true }

-- The array of the item, unless it is there, full of NULL.
unfoldable pub with_array : (qset : ℕ) → Place → Followed → Followed
with_array n p r = elim (get_elem? r.items p.item) [
  | none ↦ r
  | some none ↦
      if r.found then allocate (set r.items p.item (some (replicate n none))) r r.mem else r
  | some (some a) ↦ r
]

-- The quantum, unless it is there; `fresh` is the memory that `kmalloc` returns.
unfoldable pub with_quantum : Place → (fresh : List ℕ) → Followed → Followed
unfolding slot put_slot
with_quantum p fresh r = elim (slot p r.items) [
  | hole ↦ if r.found then allocate (put_slot p fresh r.items) r r.mem else r
  | filled b ↦ r
  | outside ↦ r
]

-- The copy, and the update of the size.
abbrev pub copy_in :
    (quantum : ℕ) (src : List ℕ) → Copy → Place → (pos : ℕ) → ScullDev → Slot → Outcome
copy_in q src user p pos d hole = overrun
copy_in q src user p pos d outside = overrun
copy_in q src user p pos d (filled b) =
    let n = min (length src) (q - p.q_pos) in
    let xs = put_slot p (write_at p.q_pos (copied user (take n src)) b) d.items in
    if ltb (length b) (p.q_pos + n) then overrun else elim user [
      | all ↦
          done (returns n) [] (pos + n)
            (up (record d { items = xs; size = if ltb d.size (pos + n) then pos + n else d.size }))
      | stops_after k ↦ done (fails efault) [] pos (up (record d { items = xs }))
    ]

unfoldable pub scull_write :
    (signal : Bool) (src : List ℕ)
    → Copy
    → List Bool
    → (fresh : List ℕ) (pos : ℕ) (at_call d : ScullDev) → Outcome
unfolding scull_follow place slot computable with_array with_quantum put_slot
scull_write signal src user mem fresh pos at_call d =
    let q = at_call.quantum in
    let n = at_call.qset in
    let p = place q n pos in
    let r = with_quantum p fresh (with_array n p (scull_follow p.item mem d.items)) in
    let e = record d { items = r.items } in
    if signal
    then done (fails erestartsys) [] pos d
    else if not (computable q n pos)
    then undefined
    else if r.found
    then copy_in q src user p pos e (slot p r.items)
    else done (fails enomem) [] pos (up e)

-- An offset of `llseek`, of either sign, and `whence`.
pub data Offset : Type 0 where
  forward back : ℕ → Offset

pub data Whence : Type 0 where
  seek_set seek_cur seek_end other : Whence

-- `newpos`, as far as it is not negative; past the range of `loff_t` it is negative.
abbrev pub moved : ℕ → Offset → Option ℕ
moved base (forward n) = if ltb (base + n) (2 ^ 63) then some (base + n) else none
moved base (back n) = if leb n base then some (base - n) else none

abbrev pub seek_to : Option ℕ → (pos : ℕ) → Ret × ℕ
seek_to none pos = (fails einval, pos)
seek_to (some n) pos = (returns n, n)

-- `scull_llseek`: what it returns, and `filp->f_pos`.
unfoldable pub scull_llseek : Offset → Whence → (pos : ℕ) → ScullDev → Ret × ℕ
scull_llseek off seek_set pos d = seek_to (moved 0 off) pos
scull_llseek off seek_cur pos d = seek_to (moved pos off) pos
scull_llseek off seek_end pos d = seek_to (moved d.size off) pos
scull_llseek off other pos d = (fails einval, pos)
