-- ===== src/TinySerial.antt =====
-- LinuxDeviceDrivers3Ed/tty/tiny_serial.c: a port of the serial core that has no hardware; its timer
-- receives a character and sends those that wait.
pub mod Sending
mod Tests
use leipocode.Base.{
  ℕ, zero, suc, ◌+◌, ◌-◌, ◌/◌, ◌%◌, ◌^◌, Bool, true, false, ◌||◌, not, Option, none, some, List, [],
  ◌∷◌, ◌++◌, ltb, ◌==◌, if◌then◌else◌, get_elem?, byte_of,
}
use leipocode.Kernel.{inc, enomem, Ret, returns, fails, page_size}

-- The port: `x_char`, `icount.tx`, `fifosize`, whether the tty has stopped, whether it has an info
-- with a tty, the buffer `xmit`, what was sent, and what the tty received; and `timer`, which is NULL
-- or not, and pending or not.
pub record Port : Type 0 where
  pub x_char : ℕ
  pub icount_tx : ℕ
  pub fifosize : ℕ
  pub stopped : Bool
  pub attached : Bool
  pub buf : List ℕ
  pub head : ℕ
  pub tail : ℕ
  pub wrote : List ℕ
  pub flips : List ℕ
  pub timer : Option Bool

-- UART_XMIT_SIZE
abbrev pub xmit_size : ℕ
xmit_size = page_size

-- `uart_circ_empty`
abbrev pub is_empty : Port → Bool
is_empty p = p.head == p.tail

-- The character at the tail is sent.
unfoldable pub send_one : Port → Port
send_one p = record p {
  wrote = p.wrote ++ byte_of (get_elem? p.buf p.tail) ∷ [];
  tail = (p.tail + 1) % xmit_size;
  icount_tx = inc p.icount_tx;
}

-- The do-while loop, with `count`.
unfoldable pub tx_loop : (count : ℕ) → Port → Port
unfolding send_one
tx_loop zero p = send_one p
tx_loop (suc count) p =
    let q = send_one p in
    let rest = tx_loop count q in if is_empty q then q else if ltb 0 count then rest else q

unfoldable pub tiny_tx_chars : Port → Port
unfolding tx_loop
tiny_tx_chars p =
    if not (p.x_char == 0)
    then record p { wrote = p.wrote ++ p.x_char ∷ []; icount_tx = inc p.icount_tx; x_char = 0 }
    else if is_empty p || p.stopped
    then p
    else tx_loop (p.fifosize / 2) p

-- TINY_DATA_CHARACTER
abbrev pub data_character : ℕ
data_character = 116

-- The timer is over.
unfoldable pub tiny_timer : Port → Port
unfolding tiny_tx_chars
tiny_timer p =
    if p.attached
    then tiny_tx_chars (record p { flips = p.flips ++ data_character ∷ []; timer = some true })
    else p

-- Whether there is memory for the timer.
unfoldable pub tiny_startup : (allocated : Bool) → Port → Ret × Port
tiny_startup allocated p = elim p.timer [
  | some armed ↦ (returns 0, record p { timer = some true })
  | none ↦ if allocated then (returns 0, record p { timer = some true }) else (fails enomem, p)
]

abbrev deleted : Option Bool → Option Bool
deleted none = none
deleted (some armed) = some false

-- (The serial core calls it after a startup that succeeded, when `timer` is not NULL.)
unfoldable pub tiny_shutdown : Port → Port
tiny_shutdown p = record p { timer = deleted p.timer }
