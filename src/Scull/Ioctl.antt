-- ===== src/Scull/Ioctl.antt =====
-- `scull_ioctl` of LinuxDeviceDrivers3Ed/scull/main.c, with the commands of scull.h.
use leipocode.Base.{
  ℕ, ◌≢◌, ◌⊎◌, inl, inr, Bool-cases, List, ◌%◌, ◌^◌, ◌≡◌, refl, Bool, true, false, not, ◌&&◌,
  Option, none, some, arith, ltb, if◌then◌else◌,
}
use native.Mathlib.Nat.{zero-mul}
use leipocode.Kernel.{Ret, returns, fails, Copy, efault, enotty, eperm}
use leipocode.Scull.{Params, ScullDev, scull_trim, scull_write, undefined, computable}

-- What the commands of scull.h do: S, T, G, Q, X and H, for the quantum and for the array size.
pub data Action : Type 0 where
  set tell get query exchange shift : Action

-- A command: one of scull.h, or another with its type, number and direction.
pub data Command : Type 0 where
  reset : Command
  on_quantum on_qset : Action → Command
  p_tell_size p_query_size : Command
  unknown : (magic : Bool) (nr : ℕ) (ioc_read ioc_write : Bool) → Command

-- What the call is given: `arg` as an `int`; whether `access_ok` accepts it as an address to write
-- and to read; what `__get_user` finds there, `none` for a fault; and whether `__put_user` succeeds.
pub record Arg : Type 0 where
  pub arg : ℕ
  pub write_ok : Bool
  pub read_ok : Bool
  pub user : Option ℕ
  pub put_ok : Bool

-- The answer, what is stored at the user's address, and the parameters.
pub record Reply : Type 0 where
  pub ret : Ret
  pub stored : Option ℕ
  pub params : Params

-- `_IOC_DIR(cmd) & _IOC_READ`, and `_IOC_DIR(cmd) & _IOC_WRITE`.
abbrev pub action_reads : Action → Bool
action_reads get = true
action_reads exchange = true
action_reads set = false
action_reads tell = false
action_reads query = false
action_reads shift = false

abbrev pub action_writes : Action → Bool
action_writes set = true
action_writes exchange = true
action_writes get = false
action_writes tell = false
action_writes query = false
action_writes shift = false

abbrev ioc_read : Command → Bool
ioc_read (on_quantum a) = action_reads a
ioc_read (on_qset a) = action_reads a
ioc_read (unknown m n r w) = r
ioc_read reset = false
ioc_read p_tell_size = false
ioc_read p_query_size = false

abbrev ioc_write : Command → Bool
ioc_write (on_quantum a) = action_writes a
ioc_write (on_qset a) = action_writes a
ioc_write (unknown m n r w) = w
ioc_write reset = false
ioc_write p_tell_size = false
ioc_write p_query_size = false

-- The type is SCULL_IOC_MAGIC and the number at most SCULL_IOC_MAXNR.
abbrev recognised : Command → Bool
recognised (unknown m n r w) = m && not (ltb 14 n)
recognised reset = true
recognised (on_quantum a) = true
recognised (on_qset a) = true
recognised p_tell_size = true
recognised p_query_size = true

abbrev refused : Command → Arg → Bool
refused c u = if ioc_read c then not u.write_ok else if ioc_write c then not u.read_ok else false

-- `__get_user (x, arg)`: what it returns and the new `x`, which is 0 behind a fault.
abbrev pub fetched : Option ℕ → Ret × ℕ
fetched none = (fails efault, 0)
fetched (some v) = (returns 0, v)

-- One variable behind an action: the answer, what is stored, and the variable.
abbrev pub Effect : Type 0
Effect = Ret × Option ℕ × ℕ

abbrev pub stores : Arg → (v kept : ℕ) → Effect
stores u v kept = if u.put_ok then (returns 0, some v, kept) else (fails efault, none, kept)

abbrev pub exchanged : Arg → (tmp : ℕ) → Option ℕ → Effect
exchanged u tmp none = (fails efault, none, 0)
exchanged u tmp (some v) = stores u tmp v

-- The six cases, for `scull_quantum` and again for `scull_qset`.
unfoldable pub act : Action → (capable : Bool) → Arg → ℕ → Effect
act set capable u x =
    if capable then ((fetched u.user).0, none, (fetched u.user).1) else (fails eperm, none, x)
act tell capable u x = if capable then (returns 0, none, u.arg % 2 ^ 32) else (fails eperm, none, x)
act get capable u x = stores u x x
act query capable u x = (returns x, none, x)
act exchange capable u x = if capable then exchanged u x u.user else (fails eperm, none, x)
act shift capable u x =
    if capable then (returns x, none, u.arg % 2 ^ 32) else (fails eperm, none, x)

-- The `switch`; SCULL_QUANTUM is 4000 and SCULL_QSET 1000.
unfoldable pub switch : Command → (capable : Bool) → Arg → Params → Reply
unfolding act
switch reset capable u p = record {
  ret = returns 0;
  stored = none;
  params = record p { scull_quantum = 4000; scull_qset = 1000 };
}
switch (on_quantum a) capable u p =
    let (r, s, x) = act a capable u p.scull_quantum in
    record { ret = r; stored = s; params = record p { scull_quantum = x } }
switch (on_qset a) capable u p =
    let (r, s, x) = act a capable u p.scull_qset in
    record { ret = r; stored = s; params = record p { scull_qset = x } }
switch p_tell_size capable u p = record {
  ret = returns 0;
  stored = none;
  params = record p { scull_p_buffer = u.arg % 2 ^ 32 };
}
switch p_query_size capable u p = record {
  ret = returns p.scull_p_buffer;
  stored = none;
  params = p;
}
switch (unknown m n r w) capable u p = record { ret = fails enotty; stored = none; params = p }

unfoldable pub scull_ioctl : Command → (capable : Bool) → Arg → Params → Reply
unfolding switch
scull_ioctl c capable u p =
    if not (recognised c)
    then record { ret = fails enotty; stored = none; params = p }
    else if refused c u
    then record { ret = fails efault; stored = none; params = p }
    else switch c capable u p

act-unprivileged : (a : Action) (u : Arg) (x : ℕ) → (act a false u x).2 ≡ x
unfolding act
act-unprivileged set u x = refl
act-unprivileged tell u x = refl
act-unprivileged get u x = ground arith
act-unprivileged query u x = refl
act-unprivileged exchange u x = refl
act-unprivileged shift u x = refl

-- What becomes of a variable under a command that is not refused or not known.
abbrev Unchanged : Params → Params → Type 0
Unchanged p r = (r.scull_quantum ≡ p.scull_quantum) × (r.scull_qset ≡ p.scull_qset)

switch-unprivileged :
    (c : Command) (u : Arg) (p : Params) → c ≢ reset → Unchanged p (switch c false u p).params
unfolding switch
switch-unprivileged reset u p ne = absurd (ne refl)
switch-unprivileged (on_quantum a) u p ne = (act-unprivileged a u p.scull_quantum, refl)
switch-unprivileged (on_qset a) u p ne = (refl, act-unprivileged a u p.scull_qset)
switch-unprivileged p_tell_size u p ne = (refl, refl)
switch-unprivileged p_query_size u p ne = (refl, refl)
switch-unprivileged (unknown m n r w) u p ne = (refl, refl)

-- Without CAP_SYS_ADMIN, `scull_quantum` and `scull_qset` stay as they are under every command but
-- SCULL_IOCRESET.
pub scull_ioctl-unprivileged :
    (c : Command) (u : Arg) (p : Params)
    → c ≢ reset
    → let r = (scull_ioctl c false u p).params in
      (r.scull_quantum ≡ p.scull_quantum) × (r.scull_qset ≡ p.scull_qset)
unfolding scull_ioctl
scull_ioctl-unprivileged c u p ne = elim (Bool-cases (recognised c)) [
  | inr e ↦ rw e (refl, refl)
  | inl e ↦ elim (Bool-cases (refused c u)) [
    | inl f ↦ rw (e, f) (refl, refl)
    | inr f ↦ rw (e, f) (switch-unprivileged c u p ne)
  ]
]

-- With CAP_SYS_ADMIN, addresses that `access_ok` accepts and copies that succeed: what a Set finds
-- at its address, the Get behind it stores, and an eXchange behind it stores too and leaves what it
-- finds; a sHift behind it returns it and leaves its argument. This holds of `scull_quantum` and of
-- `scull_qset`.
pub set_then_read :
    (v w : ℕ) (u f : Arg) (p : Params) (c : Action → Command)
    → (c ≡ on_quantum) ⊎ (c ≡ on_qset)
    → u.read_ok ≡ true
    → u.user ≡ some v
    → f.write_ok ≡ true
    → f.user ≡ some w
    → f.put_ok ≡ true
    → let q = (scull_ioctl (c set) true u p).params in
      let x = scull_ioctl (c exchange) true f q in
      let h = scull_ioctl (c shift) true f q in
      ((scull_ioctl (c get) true f q).stored ≡ some v)
      × (x.stored ≡ some v)
      × ((scull_ioctl (c query) true f x.params).ret ≡ returns w)
      × (h.ret ≡ returns v)
      × ((scull_ioctl (c query) true f h.params).ret ≡ returns (f.arg % 2 ^ 32))
unfolding scull_ioctl switch act
set_then_read v w u f p c (inl e) h₁ h₂ h₃ h₄ h₅ =
    rw (e, h₁, h₂, h₃, h₄, h₅) (refl, refl, refl, refl, refl)
set_then_read v w u f p c (inr e) h₁ h₂ h₃ h₄ h₅ =
    rw (e, h₁, h₂, h₃, h₄, h₅) (refl, refl, refl, refl, refl)

-- A Set of `scull_quantum` from an address that `access_ok` accepts but that faults returns -EFAULT
-- and has made the parameter 0; the next trim takes it over, and then every write that is not
-- interrupted divides by zero.
pub set_fault_then_write :
    (u : Arg) (p : Params) (d : ScullDev) (src : List ℕ) (user : Copy) (mem : List Bool)
    (fresh : List ℕ) (pos : ℕ)
    → u.read_ok ≡ true
    → u.user ≡ none
    → let r = scull_ioctl (on_quantum set) true u p in
      let e = scull_trim r.params d in
      (r.ret ≡ fails efault) × (scull_write false src user mem fresh pos e e ≡ undefined)
unfolding scull_ioctl switch act scull_trim scull_write computable
set_fault_then_write u p d src user mem fresh pos ok bad = rw (ok, bad) (refl, rw zero-mul refl)
