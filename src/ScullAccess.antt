-- ===== src/ScullAccess.antt =====
-- LinuxDeviceDrivers3Ed/scull/access.c: scull devices that differ in who may open them.
pub mod Single
pub mod Sessions
pub mod Private
mod Tests
use leipocode.Base.{
  ℕ, ◌+◌, Bool, true, false, not, ◌&&◌, ◌||◌, Option, none, some, List, [], ◌∷◌, ◌==◌,
  if◌then◌else◌,
}
use leipocode.Kernel.{
  Ret, returns, fails, ebusy, eagain, erestartsys, einval, enomem, File, inc, dec,
}
use leipocode.Scull.{Params, ScullDev, scull_trim}

-- What is copied from the bare device: a device that is opened for writing only is trimmed.
unfoldable pub opened : Params → File → ScullDev → ScullDev
unfolding scull_trim
opened p f d = if f.write_only then scull_trim p d else d

-- scullsingle. A process that has not opened the device, has taken the counter down in vain and
-- must take it up again, or has the device open.
pub data Proc : Type 0 where
  outside backing_out holding : Proc

-- `atomic_dec_and_test` in `scull_s_open`; `available` is `scull_s_available`.
unfoldable pub scull_s_try : (available : ℕ) → Proc × ℕ
scull_s_try available = let a = dec available in (if a == 0 then holding else backing_out, a)

-- `atomic_inc` behind a failure, and in `scull_s_release`.
unfoldable pub scull_s_release : (available : ℕ) → ℕ
scull_s_release available = inc available

-- What the calling process may do.
pub record Caller : Type 0 where
  pub uid : ℕ
  pub euid : ℕ
  pub dac_override : Bool

-- `scull_u_count` and `scull_u_owner`, or `scull_w_count` and `scull_w_owner`.
pub record Users : Type 0 where
  pub count : ℕ
  pub owner : ℕ

-- Counts the file; the first one takes the device for its user.
abbrev pub grab : Caller → Users → Users
grab c u = record { count = inc u.count; owner = if u.count == 0 then c.uid else u.owner }

unfoldable pub scull_u_open : Caller → Users → Ret × Users
scull_u_open c u =
    if not (u.count == 0) && not (u.owner == c.uid) && not (u.owner == c.euid) && not c.dac_override
    then (fails ebusy, u)
    else (returns 0, grab c u)

unfoldable pub scull_u_release : Users → Users
scull_u_release u = record u { count = dec u.count }

unfoldable pub scull_w_available : Caller → Users → Bool
scull_w_available c u =
    (u.count == 0) || (u.owner == c.uid) || (u.owner == c.euid) || c.dac_override

-- How a sleep in `scull_w_open` ends: by a signal, or by a wake-up with the counts as the others
-- left them.
pub data Wake : Type 0 where
  signalled woken : Users → Wake

-- The end of `scull_w_open`: it returns, or it still sleeps.
pub data Opening : Type 0 where
  done : Ret → Users → Opening
  asleep : Users → Opening

-- `scull_w_open`; the loop tests again behind each wake-up.
unfoldable pub scull_w_open : (nonblock : Bool) → List Wake → Caller → Users → Opening
unfolding scull_w_available
scull_w_open nb [] c u =
    if scull_w_available c u
    then done (returns 0) (grab c u)
    else if nb
    then done (fails eagain) u
    else asleep u
scull_w_open nb (signalled u' ∷ env) c u =
    if scull_w_available c u
    then done (returns 0) (grab c u)
    else if nb
    then done (fails eagain) u
    else done (fails erestartsys) u'
scull_w_open nb (woken u' ∷ env) c u =
    let rest = scull_w_open nb env c u' in
    if scull_w_available c u
    then done (returns 0) (grab c u)
    else if nb
    then done (fails eagain) u
    else rest

-- `scull_w_release`: the counts, and whether the sleepers are woken.
unfoldable pub scull_w_release : Users → Users × Bool
scull_w_release u = (record u { count = dec u.count }, dec u.count == 0)

-- `scull_c_list`: the devices with their keys.
abbrev pub Clones : Type 0
Clones = List (ℕ × ScullDev)

-- The device with a key.
unfoldable pub device_of : ℕ → Clones → Option ScullDev
device_of key [] = none
device_of key ((k, d) ∷ l) = if k == key then some d else device_of key l

-- A device of zeros, trimmed, with a free semaphore.
abbrev pub new_device : Params → ScullDev
new_device p = record {
  items = [];
  quantum = p.scull_quantum;
  qset = p.scull_qset;
  size = 0;
  sem = 1;
}

-- `scull_c_lookfor_device`: whether it returns a device, and the list; `memory` says that `kmalloc`
-- succeeds.
unfoldable pub scull_c_lookfor_device : Params → (memory : Bool) → ℕ → Clones → Bool × Clones
unfolding device_of
scull_c_lookfor_device p memory key l = elim (device_of key l) [
  | some d ↦ (true, l)
  | none ↦ if memory then (true, (key, new_device p) ∷ l) else (false, l)
]

-- Changes the device with a key where it stands.
unfoldable pub change_device : (ScullDev → ScullDev) → ℕ → Clones → Clones
change_device f key [] = []
change_device f key ((k, d) ∷ l) = if k == key then (k, f d) ∷ l else (k, d) ∷ change_device f key l

-- `scull_c_open`; `tty` is the number of the controlling terminal, if there is one.
unfoldable pub scull_c_open :
    Params → (memory : Bool) → (tty : Option ℕ) → File → Clones → Ret × Clones
unfolding opened change_device scull_c_lookfor_device
scull_c_open p memory none f l = (fails einval, l)
scull_c_open p memory (some key) f l =
    let (found, l') = scull_c_lookfor_device p memory key l in
    if found then (returns 0, change_device (opened p f) key l') else (fails enomem, l')
