-- ===== src/ScullPipe/Sleep.antt =====
-- Reads and writes of LinuxDeviceDrivers3Ed/scull/pipe.c under every schedule of wake-ups.
use leipocode.Base.{
  ℕ, ◌+◌, ◌-◌, ◌≡◌, sym, subst, ◌∙◌, min, Bool, true, false, List, [], ◌∷◌, arith, leb, ◌==◌,
  if◌then◌else◌, length, take, length-write_at, eq→==,
}
use leipocode.Kernel.{fails, Copy, all, stops_after, copied, File}
use leipocode.ScullPipe.{
  ScullPipe, Outcome, done, asleep, overrun, Wake, signalled, woken, Wait, ready, gives_up,
  sleeping, down, bytes_of, spacefree, wait_while, take_bytes, put_bytes, scull_p_read,
  scull_p_write,
}
use leipocode.ScullPipe.Valid.{IsValid}
use leipocode.ScullPipe.Fifo.{take_bytes_lem, put_bytes_lem}

-- A valid pipe whose semaphore nobody holds.
pub record Idle (d : ScullPipe) : Type 0 where
  pub valid : IsValid d
  pub free : d.sem ≡ 1

-- The other processes leave the device idle.
abbrev pub OthersIdle : List Wake → Type 0
OthersIdle [] = Unit {0}
OthersIdle (signalled e ∷ env) = Idle e × OthersIdle env
OthersIdle (woken e b ∷ env) = Idle e × OthersIdle env

-- However the operation ends, the device is idle, and nothing outside the buffer is touched.
abbrev pub Settled : Outcome → Type 0
Settled (done r bytes e events) = Idle e
Settled (asleep e) = Idle e
Settled overrun = ⊥

-- A wait ends with the device held, and not blocked, or idle.
abbrev Waited : (ScullPipe → Bool) → Wait → Type 0
Waited blocked (ready e) = IsValid e × (e.sem ≡ 0) × (blocked e ≡ false)
Waited blocked (gives_up code e) = Idle e
Waited blocked (sleeping e) = Idle e

pub IsValid-sem : {d : ScullPipe} (n : ℕ) → IsValid d → IsValid (record d { sem = n })
IsValid-sem n v = omega arith

wait_while-Waited :
    (blocked : ScullPipe → Bool) (nb : Bool) (env : List Wake) (d : ScullPipe)
    → IsValid d
    → d.sem ≡ 0
    → OthersIdle env
    → Waited blocked (wait_while blocked nb env d)
unfolding wait_while
wait_while-Waited blocked nb [] d v h others = ground arith
wait_while-Waited blocked nb (signalled e ∷ env) d v h others = ground arith
wait_while-Waited blocked nb (woken e b ∷ env) d v h others = ground (
  arith,
  wait_while-Waited blocked nb env (down e) (IsValid-sem (e.sem - 1) others.0.valid)
      (omega (arith, others.0.free)) others.1,
)

take_bytes-Settled :
    (count : ℕ) (user : Copy) {d : ScullPipe}
    → IsValid d
    → d.sem ≡ 0
    → (d.rp == d.wp) ≡ false
    → Settled (take_bytes count user d)
take_bytes-Settled count all {d} v h ne =
    let t = take_bytes_lem count v (λ e. cc (sym ne ∙ eq→== d.rp d.wp e)) in
    subst Settled (sym t.result)
      (record { valid = IsValid-sem (t.pipe.sem + 1) t.valid; free = omega (arith, t.sem_eq) })
take_bytes-Settled count (stops_after k) {d} v h ne = unfold take_bytes in ground arith

put_bytes-Settled :
    (src : List ℕ) (user : Copy) {d : ScullPipe}
    → IsValid d
    → d.sem ≡ 0
    → Settled (put_bytes src user d)
put_bytes-Settled src all {d} v h =
    let t = put_bytes_lem src v in
    subst Settled (sym t.result)
      (record { valid = IsValid-sem (t.pipe.sem + 1) t.valid; free = omega (arith, t.sem_eq) })
put_bytes-Settled src (stops_after k) {d} v h =
    let m = min (length src) (spacefree d) in
    let n = if leb d.rp d.wp then min m (d.end_off - d.wp) else min m (d.rp - d.wp - 1) in
    let xs = copied (stops_after k) (take n src) in
    unfold put_bytes in ground (arith, length-write_at d.wp xs (bytes_of d.buffer))

-- From the wait to the operation.
settle :
    (blocked : ScullPipe → Bool) (w : Wait) (go : ScullPipe → Outcome)
    → Waited blocked w
    → ((e : ScullPipe) → IsValid e → e.sem ≡ 0 → blocked e ≡ false → Settled (go e))
    → Settled (elim w [
      | ready e ↦ go e
      | gives_up code e ↦ done (fails code) [] e []
      | sleeping e ↦ asleep e
    ])
settle blocked (ready e) go w each = each e w.0 w.1 w.2
settle blocked (gives_up code e) go w each = w
settle blocked (sleeping e) go w each = w

-- `scull_p_read` on an idle pipe, whatever the count, the copy to user memory, the flags, the
-- signals and the sequence of wake-ups: it touches no memory outside the buffer, and where it
-- returns or sleeps the pipe is valid and its semaphore released, if the others leave it so.
pub scull_p_read-Settled :
    (f : File) (signal : Bool) (count : ℕ) (user : Copy) (env : List Wake) {d : ScullPipe}
    → Idle d
    → OthersIdle env
    → Settled (scull_p_read f signal count user env d)
unfolding scull_p_read
scull_p_read-Settled f true count user env i others = i
scull_p_read-Settled f false count user env {d} i others =
    settle (λ e. e.rp == e.wp) _ (take_bytes count user)
      (wait_while-Waited (λ e. e.rp == e.wp) f.nonblock env (down d)
        (IsValid-sem (d.sem - 1) i.valid) (omega (arith, i.free)) others)
      (λ e v h ne. take_bytes-Settled count user v h ne)

-- `scull_p_write` on an idle pipe, whatever the bytes, the copy from user memory, the flags, the
-- signals and the sequence of wake-ups: it touches no memory outside the buffer, and where it
-- returns or sleeps the pipe is valid and its semaphore released, if the others leave it so.
pub scull_p_write-Settled :
    (f : File) (signal : Bool) (src : List ℕ) (user : Copy) (env : List Wake) {d : ScullPipe}
    → Idle d
    → OthersIdle env
    → Settled (scull_p_write f signal src user env d)
unfolding scull_p_write
scull_p_write-Settled f true src user env i others = i
scull_p_write-Settled f false src user env {d} i others =
    settle (λ e. spacefree e == 0) _ (put_bytes src user)
      (wait_while-Waited (λ e. spacefree e == 0) f.nonblock env (down d)
        (IsValid-sem (d.sem - 1) i.valid) (omega (arith, i.free)) others)
      (λ e v h ne. put_bytes-Settled src user v h)
