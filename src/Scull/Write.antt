-- ===== src/Scull/Write.antt =====
-- `scull_write` of LinuxDeviceDrivers3Ed/scull/main.c on a device whose semaphore nobody holds.
use leipocode.Base.{
  ℕ, ◌+◌, ◌-◌, ◌≡◌, refl, ◌∙◌, inl, inr, min, Bool, true, false, some, List, [], arith, ltb, length,
  get_elem?, write_at, Bool-cases, le→ltb, length-write_at,
}
use leipocode.Kernel.{fails, enomem, Copy, all, stops_after}
use leipocode.Scull.{
  Quantum, ScullDev, Outcome, done, overrun, undefined, up, Followed, filled, place, slot, put_slot,
  copy_in, scull_follow, with_array, with_quantum, scull_write,
}
use leipocode.Scull.Valid.{IsValid, Shaped}
use leipocode.Scull.Places.{Reachable, place-s_pos, place-q_pos, computable_lem}
use leipocode.Scull.Prepare.{Prepared, allocations, put_slot-Shaped}

-- A well-formed device whose semaphore nobody holds.
pub record Idle (d : ScullDev) : Type 0 where
  pub valid : IsValid d
  pub free : d.sem ≡ 1

-- The device that `down_interruptible` leaves to the operation.
abbrev pub down : ScullDev → ScullDev
down d = record d { sem = d.sem - 1 }

-- The operation returns, and the device is idle.
abbrev pub Settled : Outcome → Type 0
Settled (done r bytes pos e) = Idle e
Settled overrun = ⊥
Settled undefined = ⊥

-- The device with another list, and released.
pub Idle-again :
    {d : ScullDev} (e : ScullDev)
    → Idle d
    → e.quantum ≡ d.quantum
    → e.qset ≡ d.qset
    → e.sem ≡ 0
    → Shaped e.quantum e.qset e.items
    → Idle (up e)
Idle-again e i same_q same_n held s =
    let v = i.valid in
    record {
      valid = record {
        some_bytes = rw (same_q, same_n) v.some_bytes;
        in_range = rw (same_q, same_n) v.in_range;
        shaped = s;
      };
      free = omega (arith, held);
    }

-- The list behind the allocations of a write.
abbrev pub prepared : (d : ScullDev) (fresh : List ℕ) (mem : List Bool) (pos : ℕ) → Followed
prepared d fresh mem pos =
    let p = place d.quantum d.qset pos in
    with_quantum p fresh (with_array d.qset p (scull_follow p.item mem d.items))

module _ {d : ScullDev} (i : Idle d) (src : List ℕ) (user : Copy) (mem : List Bool) (fresh : List ℕ)
    (pos : ℕ) (size : length fresh ≡ d.quantum) (reach : Reachable d pos) where
  pub prepared-Prepared :
      Prepared d.quantum d.qset (place d.quantum d.qset pos) d.items (prepared d fresh mem pos)
  prepared-Prepared =
      allocations (place d.quantum d.qset pos) fresh mem d.items size (place-s_pos pos i.valid)
        i.valid.shaped

  pub scull_write-enomem :
      (prepared d fresh mem pos).found ≡ false
      → scull_write false src user mem fresh pos d (down d)
        ≡ done
            (fails enomem)
            []
            pos
            (up (record (down d) { items = (prepared d fresh mem pos).items }))
  unfolding scull_write
  scull_write-enomem h = rw (computable_lem pos i.valid reach, h)

  pub scull_write-copies :
      (b : List ℕ)
      → (prepared d fresh mem pos).found ≡ true
      → slot (place d.quantum d.qset pos) (prepared d fresh mem pos).items ≡ filled b
      → scull_write false src user mem fresh pos d (down d)
        ≡ copy_in d.quantum src user
            (place d.quantum d.qset pos)
            pos
            (record (down d) { items = (prepared d fresh mem pos).items })
            (filled b)
  unfolding scull_write
  scull_write-copies b h e = rw (computable_lem pos i.valid reach, h, e)

  -- How many bytes are copied.
  abbrev copied_count : ℕ
  copied_count = min (length src) (d.quantum - (place d.quantum d.qset pos).q_pos)

  pub copy_fits :
      (b : List ℕ)
      → length b ≡ d.quantum
      → ltb (length b) ((place d.quantum d.qset pos).q_pos + copied_count) ≡ false
  copy_fits b h = le→ltb (length b) _ (omega (arith, place-q_pos pos i.valid))

  written-Shaped :
      (b : List ℕ) (a : List Quantum)
      → get_elem? (prepared d fresh mem pos).items (place d.quantum d.qset pos).item ≡ some (some a)
      → length b ≡ d.quantum
      → (bytes : List ℕ)
      → let p = place d.quantum d.qset pos in
        Shaped d.quantum d.qset
          (put_slot p (write_at p.q_pos bytes b) (prepared d fresh mem pos).items)
  written-Shaped b a e h bytes =
      let p = place d.quantum d.qset pos in
      put_slot-Shaped d.quantum d.qset p _ (prepared d fresh mem pos).items a
        (length-write_at p.q_pos bytes b ∙ h) e prepared-Prepared.shaped

  copy_in-Settled :
      (user : Copy) (b : List ℕ) (a : List Quantum)
      → get_elem? (prepared d fresh mem pos).items (place d.quantum d.qset pos).item ≡ some (some a)
      → length b ≡ d.quantum
      → Settled (
          copy_in d.quantum src user
            (place d.quantum d.qset pos)
            pos
            (record (down d) { items = (prepared d fresh mem pos).items })
            (filled b))
  copy_in-Settled all b a e h =
      rw (copy_fits b h)
        (Idle-again _ i refl refl (omega (arith, i.free)) (written-Shaped b a e h _))
  copy_in-Settled (stops_after k) b a e h =
      rw (copy_fits b h)
        (Idle-again _ i refl refl (omega (arith, i.free)) (written-Shaped b a e h _))

  -- `scull_write` on an idle device, not interrupted, whatever the bytes, the copy from user memory
  -- and the answers of `kmalloc`, whose memory has the size asked for, at a position whose item an
  -- `int` can number: it divides by no zero, touches no memory outside the arrays and quanta, and
  -- returns with a well-formed device whose semaphore is released.
  pub scull_write-Settled : Settled (scull_write false src user mem fresh pos d (down d))
  scull_write-Settled = elim (Bool-cases (prepared d fresh mem pos).found) [
    | inr h ↦
        rw (scull_write-enomem h)
          (Idle-again _ i refl refl (omega (arith, i.free)) prepared-Prepared.shaped)
    | inl h ↦
        let (a, b, e, full, _, l) = prepared-Prepared.ready h in
        rw (scull_write-copies b h full) (copy_in-Settled user b a e l)
  ]
