-- ===== src/ScullMapped/Tests.antt =====
-- Devices of LinuxDeviceDrivers3Ed/scullc, scullp and scullv in small.
use leipocode.Base.{
  ℕ, ◌-◌, ◌≡◌, refl, inr, false, true, none, some, List, [], ◌∷◌, arith, replicate, min, slice,
  take, length-replicate,
}
use leipocode.Kernel.{all, returns}
use leipocode.Scull.{done, overrun, place, Quantum}
use leipocode.Scull.Write.{Idle}
use leipocode.ScullMapped.{Dev, Defaults, core}
use leipocode.ScullMapped.Laws.{Reread}
use leipocode.ScullMapped.Drivers.{
  down, scullc_write-Reread, scullp_write-Reread, items_behind_overrun,
}
use leipocode.ScullMapped.Scullc.{scullc_write}
use leipocode.ScullMapped.Scullp.{scullp_write, scullp_read}
use leipocode.ScullMapped.Sculld.{sculld_write}
use leipocode.ScullMapped.Scullv.{scullv_write}
use leipocode.ScullMapped.Mmap.{Vma, find_page, vma_nopage}
use leipocode.ScullMapped.Pages.{nopage_then_read}

-- scullc with quanta of four bytes, three to an item.
abbrev small : Dev
small = record {
  items = some (none ∷ some (5 ∷ 6 ∷ 7 ∷ 8 ∷ []) ∷ none ∷ []) ∷ [];
  unit = 4;
  qset = 3;
  size = 7;
  vmas = 0;
  sem = 1;
}

small-Idle : Idle (core 4 small)
small-Idle = record {
  valid = record {
    some_bytes = omega arith;
    in_range = omega arith;
    shaped = ((refl, (refl, tt)), tt);
  };
  free = refl;
}

abbrev four : Defaults
four = record { unit = 4; qset = 3 }

abbrev object : List ℕ
object = 90 ∷ 91 ∷ 92 ∷ 93 ∷ []

scullc_write-Reread_example :
    Reread
      (core 4 small)
      (1 ∷ 2 ∷ 3 ∷ [])
      14
      (min 3 (4 - (place 4 3 14).q_pos))
      (scullc_write four false (1 ∷ 2 ∷ 3 ∷ []) all (replicate 4 true) object 14 small (down small))
unfolding place
scullc_write-Reread_example =
    scullc_write-Reread small four (1 ∷ 2 ∷ 3 ∷ []) object 4 14 small-Idle refl (omega arith)
      (omega arith) (omega arith) (omega arith)

-- Two items of two quanta each, nothing in them but the second quantum of the first item.
abbrev pages : (order : ℕ) → List Quantum → Dev
pages order a = record {
  items = some a ∷ some (none ∷ none ∷ []) ∷ [];
  unit = order;
  qset = 2;
  size = 8000;
  vmas = 1;
  sem = 1;
}

abbrev ones : List ℕ
ones = replicate 4096 1

abbrev one_page : List Quantum
one_page = none ∷ some ones ∷ []

pages-Idle : Idle (core 4096 (pages 0 one_page))
pages-Idle = record {
  valid = record {
    some_bytes = omega arith;
    in_range = omega arith;
    shaped = ((refl, (length-replicate {A = ℕ} 4096 1, tt)), ((refl, tt), tt));
  };
  free = refl;
}

scullp_write-Reread_example :
    Reread
      (core 4096 (pages 0 one_page))
      (1 ∷ 2 ∷ [])
      10000
      (min 2 (4096 - (place 4096 2 10000).q_pos))
      (scullp_write false
        (1 ∷ 2 ∷ [])
        all
        (replicate 5 true)
        0
        10000
        (pages 0 one_page)
        (down (pages 0 one_page)))
unfolding place
scullp_write-Reread_example =
    scullp_write-Reread (pages 0 one_page) (1 ∷ 2 ∷ []) 0 5 10000 pages-Idle (inr refl)
      (omega arith) (omega arith) (omega arith)

abbrev nothing : Dev
nothing = pages 1 (none ∷ none ∷ [])

items_behind_overrun_example :
    (scullp_write false (1 ∷ 2 ∷ []) all (true ∷ []) 0 20480 nothing nothing ≡ overrun)
    × (sculld_write false (1 ∷ 2 ∷ []) all (true ∷ []) 0 20480 nothing nothing ≡ overrun)
    × (scullv_write false (1 ∷ 2 ∷ []) all (true ∷ []) 0 20480 nothing nothing ≡ overrun)
unfolding place
items_behind_overrun_example =
    items_behind_overrun nothing (1 ∷ 2 ∷ []) all [] 0 20480 (none ∷ none ∷ []) (omega arith)
      (omega arith) (omega arith) (omega arith) refl refl (omega arith)

-- A mapping of the file from its start.
abbrev whole : Vma
whole = record { vm_start = 65536; vm_pgoff = 0 }

nopage_then_read_example :
    scullp_read false 3 all [] 4100 (pages 0 one_page) (down (pages 0 one_page))
    ≡ done (returns 3) (slice (take 4096 ones) 4 3) 4103 (core 4096 (pages 0 one_page))
unfolding vma_nopage find_page
nopage_then_read_example =
    nopage_then_read whole 69636 3 [] (pages 0 one_page) (take 4096 ones) pages-Idle refl
      (omega arith) (omega arith) (omega arith) (omega arith) refl
