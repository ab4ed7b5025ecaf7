-- ===== src/TinyTty.antt =====
-- LinuxDeviceDrivers3Ed/tty/tiny_tty.c: a serial port without hardware, whose timer sends a character
-- every two seconds while it is open.
pub mod Ports
pub mod Modem
mod Tests
use leipocode.Base.{
  ℕ, ◌+◌, ◌%◌, ◌^◌, Bool, true, false, not, ◌&&◌, ◌||◌, Option, none, some, List, [], ◌∷◌, ◌==◌,
  leb, if◌then◌else◌,
}
use leipocode.Kernel.{erestartsys, enomem, einval, enodev, eio, Ret, returns, fails, inc, dec}

-- The bits MCR_DTR, MCR_RTS and MCR_LOOP of `mcr`.
pub record Mcr : Type 0 where
  pub dtr : Bool
  pub rts : Bool
  pub loop : Bool

-- The bits MSR_CTS, MSR_CD, MSR_RI and MSR_DSR of `msr`.
pub record Msr : Type 0 where
  pub cts : Bool
  pub cd : Bool
  pub ri : Bool
  pub dsr : Bool

-- `struct tiny_serial`, as far as it is used here. `timer` is `none` for NULL, and says whether the
-- timer is armed.
pub record Port : Type 0 where
  pub open_count : ℕ
  pub timer : Option Bool
  pub msr : Msr
  pub mcr : Mcr

-- What an open returns, the entry of `tiny_table`, and whether `driver_data` points to it.
pub record Opened : Type 0 where
  pub ret : Ret
  pub entry : Option Port
  pub driver_data : Bool

-- The timer that there is, or a new one.
abbrev pub with_timer : (memory : Bool) → Option Bool → Port → Opened
with_timer memory (some b) p = record {
  ret = returns 0;
  entry = some (record p { timer = some true });
  driver_data = true;
}
with_timer true none p = record {
  ret = returns 0;
  entry = some (record p { timer = some true });
  driver_data = true;
}
with_timer false none p = record { ret = fails enomem; entry = some p; driver_data = true }

abbrev pub opened : (memory : Bool) → Port → Opened
opened memory p =
    let q = record p { open_count = inc p.open_count } in
    if q.open_count == 1
    then with_timer memory q.timer q
    else record { ret = returns 0; entry = some q; driver_data = true }

-- `fresh` is what `kmalloc` gives for the port, with whatever the memory holds in `msr` and `mcr`, and
-- `memory` says whether it has memory for a timer.
unfoldable pub tiny_open : (fresh : Option Port) (memory : Bool) → Option Port → Opened
tiny_open fresh memory (some p) = opened memory p
tiny_open none memory none = record { ret = fails enomem; entry = none; driver_data = false }
tiny_open (some f) memory none = opened memory (record f { open_count = 0; timer = none })

-- `del_timer`; `none` is a NULL timer, which is followed all the same.
abbrev pub without_timer : Option Bool → Port → Option Port
without_timer none p = none
without_timer (some b) p = some (record p { timer = some false })

-- An `int` that is at most 0.
abbrev pub not_positive : ℕ → Bool
not_positive n = n == 0 || leb (2 ^ 31) n

unfoldable pub do_close : Port → Option Port
do_close p =
    let q = record p { open_count = dec p.open_count } in
    if p.open_count == 0
    then some p
    else if not_positive q.open_count
    then without_timer q.timer q
    else some q

-- The port that `driver_data` points to; `some none` is where there is none.
unfoldable pub tiny_close : Option Port → Option (Option Port)
unfolding do_close
tiny_close none = some none
tiny_close (some p) = closed (do_close p)
  where
    closed : Option Port → Option (Option Port)
    closed none = none
    closed (some q) = some (some q)

-- What is written goes to the log.
unfoldable pub tiny_write : (buffer : List ℕ) → Option Port → Ret
tiny_write buffer none = fails enodev
tiny_write buffer (some p) = if p.open_count == 0 then fails einval else fails einval

unfoldable pub tiny_write_room : Option Port → Ret
tiny_write_room none = fails enodev
tiny_write_room (some p) = if p.open_count == 0 then fails einval else returns 255

-- The timer fires, sends TINY_DATA_CHARACTER, and arms itself again.
unfoldable pub tiny_timer : Port → Port × List ℕ
tiny_timer p = (record p { timer = some true }, 116 ∷ [])

-- The bits TIOCM_DTR, TIOCM_RTS, TIOCM_LOOP, TIOCM_CTS, TIOCM_CAR, TIOCM_RI and TIOCM_DSR.
pub record Tiocm : Type 0 where
  pub dtr : Bool
  pub rts : Bool
  pub loop : Bool
  pub cts : Bool
  pub car : Bool
  pub ri : Bool
  pub dsr : Bool

unfoldable pub tiny_tiocmget : Port → Tiocm
tiny_tiocmget p = record {
  dtr = p.mcr.dtr;
  rts = p.mcr.rts;
  loop = p.mcr.loop;
  cts = p.msr.cts;
  car = p.msr.cd;
  ri = p.msr.ri;
  dsr = p.msr.dsr;
}

abbrev pub rts_if : (test value : Bool) → Mcr → Mcr
rts_if test value m = if test then record m { rts = value } else m

-- The four tests, one after the other.
unfoldable pub tiny_tiocmset : (set clear : Tiocm) → Port → Port
tiny_tiocmset set clear p = record p {
  mcr =
      rts_if clear.dtr false
        (rts_if clear.rts false (rts_if set.dtr true (rts_if set.rts true p.mcr)));
}

-- `struct async_icount`, as far as TIOCMIWAIT reads it.
pub record Icount : Type 0 where
  pub rng : ℕ
  pub dsr : ℕ
  pub dcd : ℕ
  pub cts : ℕ

-- The bits of the argument.
pub record Watched : Type 0 where
  pub rng : Bool
  pub dsr : Bool
  pub cd : Bool
  pub cts : Bool

abbrev pub unchanged : Icount → Icount → Bool
unchanged a b = a.rng == b.rng && (a.dsr == b.dsr) && (a.dcd == b.dcd) && (a.cts == b.cts)

abbrev pub wanted : Watched → Icount → Icount → Bool
wanted l a b =
    (l.rng && not (a.rng == b.rng))
    || (l.dsr && not (a.dsr == b.dsr))
    || (l.cd && not (a.dcd == b.dcd))
    || (l.cts && not (a.cts == b.cts))

-- The wait for TIOCMIWAIT. `wakes` are the wake-ups, each with whether a signal is pending and the
-- counts; `none` while it waits.
unfoldable pub tiny_ioctl_tiocmiwait :
    Watched → (wakes : List (Bool × Icount)) (cprev : Icount) → Option Ret
tiny_ioctl_tiocmiwait l [] cprev = none
tiny_ioctl_tiocmiwait l ((signal, cnow) ∷ wakes) cprev =
    let rest = tiny_ioctl_tiocmiwait l wakes cnow in
    if signal
    then some (fails erestartsys)
    else if unchanged cnow cprev
    then some (fails eio)
    else if wanted l cnow cprev
    then some (returns 0)
    else rest
