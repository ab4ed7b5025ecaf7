-- ===== src/Scull/Tests.antt =====
-- A device of LinuxDeviceDrivers3Ed/scull/main.c with quanta of four bytes, three to an item.
use leipocode.Base.{
  ℕ, ◌-◌, ◌≡◌, refl, true, false, none, some, List, [], ◌∷◌, arith, replicate, min,
}
use leipocode.Kernel.{returns, all, stops_after}
use leipocode.Scull.{
  Params, ScullDev, done, overrun, scull_read, read_at, scull_write, scull_llseek, back, seek_end,
  scull_follow, place, computable, slot, read_at,
}
use leipocode.Scull.Write.{Idle, down, Settled, scull_write-Settled}
use leipocode.Scull.Read.{scull_read-Settled}
use leipocode.Scull.Reread.{Reread, scull_write-Reread}
use leipocode.Scull.Ioctl.{Arg}

-- Its second item holds one quantum, at the bytes 16 to 19.
abbrev small : ScullDev
small = record {
  items = none ∷ some (none ∷ some (5 ∷ 6 ∷ 7 ∷ 8 ∷ []) ∷ none ∷ []) ∷ [];
  quantum = 4;
  qset = 3;
  size = 19;
  sem = 1;
}

abbrev defaults : Params
defaults = record { scull_quantum = 4000; scull_qset = 1000; scull_p_buffer = 4000 }

abbrev junk : List ℕ
junk = 90 ∷ 91 ∷ 92 ∷ 93 ∷ []

small-Idle : Idle small
small-Idle = record {
  valid = record {
    some_bytes = omega arith;
    in_range = omega arith;
    shaped = (tt, ((refl, (refl, tt)), tt));
  };
  free = refl;
}

read_runs :
    scull_read false 10 all [] 17 small (down small) ≡ done (returns 2) (6 ∷ 7 ∷ []) 19 small
unfolding scull_read read_at place computable slot scull_follow
read_runs = refl

seek_runs : scull_llseek (back 4) seek_end 3 small ≡ (returns 15, 15)
unfolding scull_llseek
seek_runs = refl

scull_read-Settled_example :
    Settled (scull_read false 10 (stops_after 1) (true ∷ []) 17 small (down small))
scull_read-Settled_example =
    scull_read-Settled 10 (stops_after 1) (true ∷ []) 17 small-Idle (omega arith)

scull_write-Settled_example :
    Settled (scull_write false (1 ∷ 2 ∷ []) (stops_after 1) (true ∷ []) junk 38 small (down small))
scull_write-Settled_example =
    scull_write-Settled small-Idle (1 ∷ 2 ∷ []) (stops_after 1) (true ∷ []) junk 38 refl
      (omega arith)

scull_write-Reread_example :
    let p = place 4 3 38 in
    Reread small
      (1 ∷ 2 ∷ 3 ∷ [])
      38
      (min 3 (4 - p.q_pos))
      (scull_write false (1 ∷ 2 ∷ 3 ∷ []) all (replicate 6 true) junk 38 small (down small))
unfolding place
scull_write-Reread_example =
    scull_write-Reread small-Idle (1 ∷ 2 ∷ 3 ∷ []) junk 6 38 refl (omega arith) (omega arith)
      (omega arith)

abbrev faulty : Arg
faulty = record { arg = 9; write_ok = true; read_ok = true; user = none; put_ok = false }

-- The same device trimmed to quanta of two bytes, and filled again.
abbrev refilled : ScullDev
refilled = record {
  items = some (some (1 ∷ 2 ∷ []) ∷ some (3 ∷ 4 ∷ []) ∷ none ∷ []) ∷ [];
  quantum = 2;
  qset = 3;
  size = 4;
  sem = 0;
}

-- A read with the sizes from before.
reads_with_stale_sizes : scull_read false 4 all [] 0 small refilled ≡ overrun
unfolding scull_read read_at place slot
reads_with_stale_sizes = refl
