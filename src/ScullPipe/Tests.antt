-- ===== src/ScullPipe/Tests.antt =====
-- A pipe of LinuxDeviceDrivers3Ed/scull/pipe.c with a buffer of eight bytes.
use leipocode.Base.{ℕ, ◌≡◌, refl, true, false, none, some, List, [], ◌∷◌, ◌++◌, arith}
use leipocode.Kernel.{all, stops_after, File}
use leipocode.ScullPipe.{
  ScullPipe, overrun, signalled, woken, spacefree, scull_p_read, scull_p_write, scull_p_open,
  put_bytes,
}
use leipocode.ScullPipe.Valid.{IsValid, contents}
use leipocode.ScullPipe.Sleep.{Idle, Settled, scull_p_read-Settled, scull_p_write-Settled}
use leipocode.ScullPipe.Stream.{Call, read, write, start, run, run_is_fifo}
use leipocode.ScullPipe.Open.{reopen_then_write_overruns}

abbrev memory : List ℕ
memory = 10 ∷ 11 ∷ 12 ∷ 13 ∷ 14 ∷ 15 ∷ 16 ∷ 17 ∷ []

-- Its bytes 16 and 17, then 10 and 11, round the end.
abbrev wrapped : ScullPipe
wrapped = record {
  buffer = some memory;
  buffersize = 8;
  end_off = 8;
  rp = 6;
  wp = 2;
  nreaders = 1;
  nwriters = 1;
  async_queue = false;
  sem = 1;
}

wrapped-IsValid : IsValid wrapped
wrapped-IsValid = omega arith

wrapped-Idle : Idle wrapped
wrapped-Idle = record { valid = wrapped-IsValid; free = refl }

contents-wrapped : contents wrapped ≡ 16 ∷ 17 ∷ 10 ∷ 11 ∷ []
unfolding contents
contents-wrapped = refl

abbrev calls : List Call
calls = read 3 ∷ write (1 ∷ 2 ∷ 3 ∷ 4 ∷ 5 ∷ []) ∷ read 10 ∷ write (6 ∷ []) ∷ read 2 ∷ []

received-wrapped :
    (run calls (start wrapped)).received ≡ 16 ∷ 17 ∷ 10 ∷ 11 ∷ 1 ∷ 2 ∷ 3 ∷ 4 ∷ 5 ∷ 6 ∷ []
unfolding run spacefree put_bytes
received-wrapped = refl

run_is_fifo_example :
    let t = run calls (start wrapped) in
    (t.received ++ contents t.pipe ≡ contents wrapped ++ t.sent) × Idle t.pipe
run_is_fifo_example = run_is_fifo calls wrapped-Idle

-- The pipe as another process empties it.
abbrev drained : ScullPipe
drained = record wrapped { rp = 2 }

abbrev blocking : File
blocking = record { write_only = false; nonblock = false; mode_read = true; mode_write = true }

scull_p_read-Settled_example : Settled (
    scull_p_read blocking false 5
      (stops_after 1)
      (woken drained false ∷ woken wrapped false ∷ [])
      drained)
scull_p_read-Settled_example =
    scull_p_read-Settled blocking false 5 (stops_after 1)
      (woken drained false ∷ woken wrapped false ∷ []) (record { valid = omega arith; free = refl })
      (record { valid = omega arith; free = refl }, (wrapped-Idle, tt))

scull_p_write-Settled_example :
    Settled
      (scull_p_write blocking false (1 ∷ 2 ∷ []) (stops_after 1) (signalled drained ∷ []) wrapped)
scull_p_write-Settled_example =
    scull_p_write-Settled blocking false (1 ∷ 2 ∷ []) (stops_after 1) (signalled drained ∷ [])
      wrapped-Idle (record { valid = omega arith; free = refl }, tt)

reopen_then_write_overruns_example :
    scull_p_write blocking false
      (memory ++ memory)
      all
      []
      (scull_p_open 16 none blocking false wrapped).1
    ≡ overrun
reopen_then_write_overruns_example =
    reopen_then_write_overruns 16 memory (memory ++ memory) none blocking blocking wrapped refl
      (omega arith) (omega arith) (omega arith)
