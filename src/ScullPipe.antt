-- ===== src/ScullPipe.antt =====
-- LinuxDeviceDrivers3Ed/scull/pipe.c: a pipe over a circular buffer.
-- Pointers into the buffer are offsets from its start, and `end_off` is `end`. An operation runs
-- with the semaphore held, except where it sleeps: there a list of wake-ups says what the other
-- processes made of the device meanwhile.
pub mod Valid
pub mod Fifo
pub mod Sleep
pub mod Stream
pub mod Open
mod Tests
use leipocode.Base.{
  ℕ, ◌+◌, ◌-◌, ◌%◌, ◌^◌, min, Bool, true, false, not, ◌||◌, Option, none, some, List, [], ◌∷◌, ltb,
  leb, ◌==◌, if◌then◌else◌, length, take, slice, write_at,
}
use leipocode.Kernel.{
  Errno, erestartsys, eagain, efault, enomem, Ret, returns, fails, Copy, all, stops_after, copied,
  File, inc, dec,
}

-- `struct scull_pipe`; `buffer` is the allocated memory, `none` for NULL.
pub record ScullPipe : Type 0 where
  pub buffer : Option (List ℕ)
  pub buffersize : ℕ
  pub end_off : ℕ
  pub rp : ℕ
  pub wp : ℕ
  pub nreaders : ℕ
  pub nwriters : ℕ
  pub async_queue : Bool
  pub sem : ℕ

-- What an operation signals to other processes.
pub data Event : Type 0 where
  wake_inq wake_outq sigio : Event

-- The end of an operation: it returns, with the bytes that reached user memory; it sleeps; or it
-- touches memory outside the allocation.
pub data Outcome : Type 0 where
  done : Ret → List ℕ → ScullPipe → List Event → Outcome
  asleep : ScullPipe → Outcome
  overrun : Outcome

-- How a sleep ends, with the device as the others left it: by a signal, or not, and then
-- `down_interruptible` may still be interrupted.
pub data Wake : Type 0 where
  signalled : ScullPipe → Wake
  woken : ScullPipe → Bool → Wake

-- How the wait for data or space ends.
pub data Wait : Type 0 where
  ready : ScullPipe → Wait
  gives_up : Errno → ScullPipe → Wait
  sleeping : ScullPipe → Wait

abbrev pub up : ScullPipe → ScullPipe
up d = record d { sem = d.sem + 1 }

abbrev pub down : ScullPipe → ScullPipe
down d = record d { sem = d.sem - 1 }

-- An `int` that is one less than `n`, as a `size_t`: -1 is the largest of them.
abbrev pub size_pred : ℕ → ℕ
size_pred n = (n + 2 ^ 64 - 1) % 2 ^ 64

unfoldable pub spacefree : ScullPipe → ℕ
spacefree d =
    if d.rp == d.wp
    then size_pred d.buffersize
    else size_pred ((d.rp + d.buffersize - d.wp) % d.buffersize)

-- The loops of `scull_p_read` and of `scull_getwritespace`: while the device is blocked, release
-- it and sleep. `blocked` is tested again behind each wake-up.
unfoldable pub wait_while : (ScullPipe → Bool) → (nonblock : Bool) → List Wake → ScullPipe → Wait
wait_while blocked nb [] d =
    if not (blocked d) then ready d else if nb then gives_up eagain (up d) else sleeping (up d)
wait_while blocked nb (signalled e ∷ env) d =
    if not (blocked d)
    then ready d
    else if nb
    then gives_up eagain (up d)
    else gives_up erestartsys e
wait_while blocked nb (woken e interrupted ∷ env) d =
    let rest = wait_while blocked nb env (down e) in
    if not (blocked d)
    then ready d
    else if nb
    then gives_up eagain (up d)
    else if interrupted
    then gives_up erestartsys e
    else rest

abbrev pub bytes_of : Option (List ℕ) → List ℕ
bytes_of none = []
bytes_of (some b) = b

abbrev first_some : Option (List ℕ) → Option (List ℕ) → Option (List ℕ)
first_some none fresh = fresh
first_some (some b) fresh = some b

-- Behind the wait: the copy of at most `count` bytes, up to the write pointer or the end.
unfoldable pub take_bytes : (count : ℕ) → Copy → ScullPipe → Outcome
take_bytes count user d =
    let b = bytes_of d.buffer in
    let n = if ltb d.rp d.wp then min count (d.wp - d.rp) else min count (d.end_off - d.rp) in
    let r = d.rp + n in
    if ltb (length b) r then overrun else elim user [
      | stops_after k ↦ done (fails efault) (take k (slice b d.rp n)) (up d) []
      | all ↦
          done (returns n) (slice b d.rp n) (up (record d { rp = if r == d.end_off then 0 else r }))
            (wake_outq ∷ [])
    ]

-- `scull_p_read`; `signal` says that `down_interruptible` is interrupted at once.
unfoldable pub scull_p_read :
    File → (signal : Bool) → (count : ℕ) → Copy → List Wake → ScullPipe → Outcome
unfolding wait_while take_bytes
scull_p_read f signal count user env d =
    if signal
    then done (fails erestartsys) [] d []
    else elim (wait_while (λ e. e.rp == e.wp) f.nonblock env (down d)) [
      | ready e ↦ take_bytes count user e
      | gives_up code e ↦ done (fails code) [] e []
      | sleeping e ↦ asleep e
    ]

-- Behind the wait: the copy of as much of `src` as there is space for, up to the end or to the
-- byte in front of the read pointer.
unfoldable pub put_bytes : (src : List ℕ) → Copy → ScullPipe → Outcome
put_bytes src user d =
    let b = bytes_of d.buffer in
    let m = min (length src) (spacefree d) in
    let n = if leb d.rp d.wp then min m (d.end_off - d.wp) else min m (d.rp - d.wp - 1) in
    let w = d.wp + n in
    let written = record d { buffer = some (write_at d.wp (copied user (take n src)) b) } in
    if ltb (length b) w then overrun else elim user [
      | stops_after k ↦ done (fails efault) [] (up written) []
      | all ↦
          done (returns n) [] (up (record written { wp = if w == d.end_off then 0 else w }))
            (if d.async_queue then wake_inq ∷ sigio ∷ [] else wake_inq ∷ [])
    ]

-- `scull_p_write`; `src` are the `count` bytes at `buf`.
unfoldable pub scull_p_write :
    File → (signal : Bool) → (src : List ℕ) → Copy → List Wake → ScullPipe → Outcome
unfolding wait_while put_bytes spacefree
scull_p_write f signal src user env d =
    if signal
    then done (fails erestartsys) [] d []
    else elim (wait_while (λ e. spacefree e == 0) f.nonblock env (down d)) [
      | ready e ↦ put_bytes src user e
      | gives_up code e ↦ done (fails code) [] e []
      | sleeping e ↦ asleep e
    ]

-- `scull_p_poll`: readable, writable.
unfoldable pub scull_p_poll : ScullPipe → Bool × Bool
unfolding spacefree
scull_p_poll d = (not (d.rp == d.wp), not (spacefree d == 0))

-- `scull_p_open`; `fresh` is what `kmalloc (scull_p_buffer)` returns.
unfoldable pub scull_p_open :
    (scull_p_buffer : ℕ) (fresh : Option (List ℕ))
    → File
    → (signal : Bool) → ScullPipe
    → Ret × ScullPipe
scull_p_open size fresh f signal d =
    if signal then (fails erestartsys, d) else elim (first_some d.buffer fresh) [
      | none ↦ (fails enomem, d)
      | some b ↦ (
        returns 0,
        record d {
          buffer = some b;
          buffersize = size;
          end_off = size;
          rp = 0;
          wp = 0;
          nreaders = if f.mode_read then inc d.nreaders else d.nreaders;
          nwriters = if f.mode_write then inc d.nwriters else d.nwriters;
        },
      )
    ]

-- `scull_p_release`. Taking the file off the asynchronous queue is the kernel's `fasync_helper`:
-- `others` says that other files stay on it.
unfoldable pub scull_p_release : File → (others : Bool) → ScullPipe → ScullPipe
scull_p_release f others d =
    let r = if f.mode_read then dec d.nreaders else d.nreaders in
    let w = if f.mode_write then dec d.nwriters else d.nwriters in
    record d {
      async_queue = others;
      nreaders = r;
      nwriters = w;
      buffer = if (r + w) % 2 ^ 32 == 0 then none else d.buffer;
    }
