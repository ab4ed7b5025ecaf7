-- ===== src/Scull/Places.antt =====
-- Where a position of LinuxDeviceDrivers3Ed/scull/main.c lies in its item.
use leipocode.Base.{ℕ, zero, suc, ◌*◌, ◌%◌, ◌^◌, ◌<◌, ◌≡◌, true, arith, lt→ltb}
use native.Mathlib.Nat.{div-lt_iff_lt-mul, mod-lt, mul_comm}
use leipocode.Scull.{place, computable, ScullDev}
use leipocode.Scull.Valid.{IsValid}

-- The item of a position has a number that an `int` can hold.
abbrev pub Reachable : ScullDev → ℕ → Type 0
Reachable d pos = pos < 2 ^ 31 * (d.quantum * d.qset)

pub quantum_positive : {d : ScullDev} → IsValid d → 0 < d.quantum
quantum_positive {d} v = go d.quantum d.qset v.some_bytes
  where
    go : (q n : ℕ) → 0 < q * n → 0 < q
    go zero n h = ground (arith, h)
    go (suc q) n h = omega arith

pub qset_positive : {d : ScullDev} → IsValid d → 0 < d.qset
qset_positive {d} v = go d.quantum d.qset v.some_bytes
  where
    go : (q n : ℕ) → 0 < q * n → 0 < n
    go q zero h = ground (arith, h)
    go q (suc n) h = omega arith

pub place-s_pos : {d : ScullDev} (pos : ℕ) → IsValid d → (place d.quantum d.qset pos).s_pos < d.qset
unfolding place
place-s_pos {d} pos v =
    (div-lt_iff_lt-mul (quantum_positive v)).1
      (rw (mul_comm d.qset d.quantum) (mod-lt pos v.some_bytes))

pub place-q_pos :
    {d : ScullDev} (pos : ℕ) → IsValid d → (place d.quantum d.qset pos).q_pos < d.quantum
unfolding place
place-q_pos {d} pos v = mod-lt (pos % (d.quantum * d.qset)) (quantum_positive v)

pub computable_of :
    (d : ScullDev) (pos : ℕ)
    → 0 < d.quantum * d.qset
    → d.quantum * d.qset < 2 ^ 31
    → Reachable d pos
    → computable d.quantum d.qset pos ≡ true
unfolding computable
computable_of d pos some_bytes in_range r =
    rw (lt→ltb 0 (d.quantum * d.qset) some_bytes, lt→ltb (d.quantum * d.qset) (2 ^ 31) in_range)
      (lt→ltb _ _ ((div-lt_iff_lt-mul some_bytes).1 r))

pub computable_lem :
    {d : ScullDev} (pos : ℕ) → IsValid d → Reachable d pos → computable d.quantum d.qset pos ≡ true
computable_lem {d} pos v r = computable_of d pos v.some_bytes v.in_range r
