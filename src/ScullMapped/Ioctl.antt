-- ===== src/ScullMapped/Ioctl.antt =====
-- The ioctl of scullc, scullp, sculld and scullv of LinuxDeviceDrivers3Ed, which needs no capability.
use leipocode.Base.{ℕ, Bool, true, false, not, ◌&&◌, Option, none, ltb, if◌then◌else◌}
use leipocode.Kernel.{efault, enotty, Ret, returns, fails}
use leipocode.Scull.Ioctl.{Action, Arg, action_reads, action_writes, act}
use leipocode.ScullMapped.{Defaults}

-- The commands of the header; the unit is the quantum in scullc and the order in the others.
pub data Command : Type 0 where
  reset : Command
  on_unit on_qset : Action → Command
  unknown : (magic : Bool) (nr : ℕ) (ioc_read ioc_write : Bool) → Command

-- The answer, what is stored at the user's address, and the parameters.
pub record Reply : Type 0 where
  pub ret : Ret
  pub stored : Option ℕ
  pub params : Defaults

abbrev ioc_read : Command → Bool
ioc_read (on_unit a) = action_reads a
ioc_read (on_qset a) = action_reads a
ioc_read (unknown m n r w) = r
ioc_read reset = false

abbrev ioc_write : Command → Bool
ioc_write (on_unit a) = action_writes a
ioc_write (on_qset a) = action_writes a
ioc_write (unknown m n r w) = w
ioc_write reset = false

-- The type is the magic number and the command number at most 12.
abbrev recognised : Command → Bool
recognised (unknown m n r w) = m && not (ltb 12 n)
recognised reset = true
recognised (on_unit a) = true
recognised (on_qset a) = true

abbrev refused : Command → Arg → Bool
refused c u = if ioc_read c then not u.write_ok else if ioc_write c then not u.read_ok else false

-- The `switch`; `start` are the values that a reset brings back.
unfoldable pub switch : (start : Defaults) → Command → Arg → Defaults → Reply
unfolding act
switch start reset u p = record { ret = returns 0; stored = none; params = start }
switch start (on_unit a) u p =
    let (r, s, x) = act a true u p.unit in
    record { ret = r; stored = s; params = record p { unit = x } }
switch start (on_qset a) u p =
    let (r, s, x) = act a true u p.qset in
    record { ret = r; stored = s; params = record p { qset = x } }
switch start (unknown m n r w) u p = record { ret = fails enotty; stored = none; params = p }

unfoldable pub dev_ioctl : (start : Defaults) → Command → Arg → Defaults → Reply
unfolding switch
dev_ioctl start c u p =
    if not (recognised c)
    then record { ret = fails enotty; stored = none; params = p }
    else if refused c u
    then record { ret = fails efault; stored = none; params = p }
    else switch start c u p
