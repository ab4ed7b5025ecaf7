-- ===== src/Short/Ports.antt =====
-- The reads and the writes of the port of LinuxDeviceDrivers3Ed/short/short.c.
use leipocode.Base.{
  ℕ, zero, suc, ◌+◌, ◌*◌, ◌/◌, ◌%◌, Bool, not, ◌&&◌, Option, none, some, List, [], ◌∷◌, ltb, ◌==◌,
  if◌then◌else◌, length,
}
use leipocode.Kernel.{enomem, efault, einval, Ret, returns, fails}

-- How a byte passes the port: `inb` and `outb`, those that pause, those for strings, and `ioread8` and
-- `iowrite8`.
pub data Access : Type 0 where
  plain paused string memory : Access

-- The mode by its number.
abbrev pub by_number : ℕ → Option Access
by_number n =
    if n == 0
    then some plain
    else if n == 1
    then some paused
    else if n == 2
    then some string
    else if n == 3
    then some memory
    else none

abbrev pub mode_of : (use_mem : Bool) (minor : ℕ) → Option Access
mode_of use_mem minor = if use_mem then some memory else by_number (minor / 16 % 8)

-- A byte that is written.
pub record Out : Type 0 where
  pub access : Access
  pub port : ℕ
  pub byte : ℕ

-- What a call returns, what it copies to the user, what it writes to the port, and how many of its
-- allocations it has not freed.
pub record Called : Type 0 where
  pub ret : Ret
  pub bytes : List ℕ
  pub outs : List Out
  pub unfreed : ℕ

-- The bytes that the port gives, from the `i`-th on.
abbrev pub inputs_from : (inputs : ℕ → ℕ) (i count : ℕ) → List ℕ
inputs_from inputs i zero = []
inputs_from inputs i (suc count) = inputs i ∷ inputs_from inputs (i + 1) count

-- `allocated` and `copied` say whether `kmalloc` and `copy_to_user` succeed. (`count` is in the range
-- of `int`.)
unfoldable pub do_short_read :
    (use_mem : Bool) (minor : ℕ) (allocated copied : Bool) (inputs : ℕ → ℕ) (count : ℕ) → Called
do_short_read use_mem minor allocated copied inputs count =
    if not allocated
    then record { ret = fails enomem; bytes = []; outs = []; unfreed = 0 }
    else elim (mode_of use_mem minor) [
      | none ↦ record { ret = fails einval; bytes = []; outs = []; unfreed = 0 }
      | some a ↦
          if ltb 0 count && not copied
          then record { ret = fails efault; bytes = []; outs = []; unfreed = 0 }
          else record {
            ret = returns count;
            bytes = inputs_from inputs 0 count;
            outs = [];
            unfreed = 0;
          }
    ]

abbrev pub outs_of : Access → (port : ℕ) → List ℕ → List Out
outs_of a port [] = []
outs_of a port (b ∷ bs) = record { access = a; port = port; byte = b } ∷ outs_of a port bs

unfoldable pub do_short_write :
    (use_mem : Bool) (short_base minor : ℕ) (allocated copied : Bool) (src : List ℕ) → Called
do_short_write use_mem short_base minor allocated copied src =
    if not allocated
    then record { ret = fails enomem; bytes = []; outs = []; unfreed = 0 }
    else if not copied
    then record { ret = fails efault; bytes = []; outs = []; unfreed = 1 }
    else elim (mode_of use_mem minor) [
      | none ↦ record { ret = fails einval; bytes = []; outs = []; unfreed = 0 }
      | some a ↦ record {
        ret = returns (length src);
        bytes = [];
        outs = outs_of a (short_base + minor % 16) src;
        unfreed = 0;
      }
    ]

-- The bytes that toggle the data lines, `written` being those before.
abbrev pub toggles : (odd written count : ℕ) → List ℕ
toggles odd written zero = []
toggles odd written (suc count) = 255 * ((written + 1 + odd) % 2) ∷ toggles odd (written + 1) count

-- The bytes written, and the position.
unfoldable pub short_i_write : (use_mem : Bool) (short_base count pos : ℕ) → Called × ℕ
short_i_write use_mem short_base count pos = (
  record {
    ret = returns count;
    bytes = [];
    outs = outs_of (if use_mem then memory else plain) short_base (toggles (pos % 2) 0 count);
    unfreed = 0;
  },
  pos + count,
)
