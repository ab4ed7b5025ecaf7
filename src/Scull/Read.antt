-- ===== src/Scull/Read.antt =====
-- `scull_read` of LinuxDeviceDrivers3Ed/scull/main.c, and what it reads behind a write.
use leipocode.Base.{
  ℕ, ◌+◌, ◌-◌, ◌≡◌, refl, inl, inr, min, Bool, false, List, arith, ltb, leb, length, Bool-cases,
  le→ltb,
}
use leipocode.Kernel.{Copy, all, stops_after}
use leipocode.Scull.{
  ScullDev, Slot, hole, filled, outside, place, slot, scull_follow, copy_out, read_at, scull_read,
}
use leipocode.Scull.Valid.{Shaped, Fits}
use leipocode.Scull.Places.{Reachable, place-s_pos, place-q_pos, computable_lem}
use leipocode.Scull.Slots.{slot-Fits}
use leipocode.Scull.Follow.{scull_follow-Shaped, scull_follow-found}
use leipocode.Scull.Write.{Idle, down, Settled, Idle-again}

module _ {d : ScullDev} (i : Idle d) (count : ℕ) (user : Copy) (mem : List Bool) (pos : ℕ)
    (reach : Reachable d pos) where
  out_fits :
      (b : List ℕ)
      → length b ≡ d.quantum
      → let q = (place d.quantum d.qset pos).q_pos in
        ltb (length b) (q + min count (d.quantum - q)) ≡ false
  out_fits b h = le→ltb (length b) _ (omega (arith, place-q_pos pos i.valid))

  copy_out-Settled :
      (u : Copy) (e : ScullDev) (s : Slot)
      → e.quantum ≡ d.quantum
      → e.qset ≡ d.qset
      → e.sem ≡ 0
      → Shaped e.quantum e.qset e.items
      → Fits d.quantum s
      → Settled (copy_out d.quantum count u (place d.quantum d.qset pos) pos e s)
  copy_out-Settled u e hole q n h s f = Idle-again e i q n h s
  copy_out-Settled u e outside q n h s f = f
  copy_out-Settled all e (filled b) q n h s f = rw (out_fits b f) (Idle-again e i q n h s)
  copy_out-Settled (stops_after k) e (filled b) q n h s f =
      rw (out_fits b f) (Idle-again e i q n h s)

  read_at-Settled : Settled (read_at d.quantum d.qset count user mem pos (down d))
  unfolding read_at
  read_at-Settled =
      let p = place d.quantum d.qset pos in
      let r = scull_follow p.item mem d.items in
      let shaped : Shaped d.quantum d.qset r.items =
        scull_follow-Shaped d.quantum d.qset p.item mem d.items i.valid.shaped in
      elim (Bool-cases r.found) [
        | inr h ↦
            rw (computable_lem pos i.valid reach, h)
              (Idle-again _ i refl refl (omega (arith, i.free)) shaped)
        | inl h ↦
            rw (computable_lem pos i.valid reach, h)
              (copy_out-Settled user _ (slot p r.items) refl refl (omega (arith, i.free)) shaped (
                slot-Fits d.quantum d.qset p r.items shaped
                  (scull_follow-found p.item mem d.items h) (place-s_pos pos i.valid)))
      ]

-- `scull_read` on an idle device, not interrupted, whatever the count, the copy to user memory and
-- the answers of `kmalloc`, at a position whose item an `int` can number: it divides by no zero, touches no memory
-- outside the arrays and quanta, and returns with a well-formed device whose semaphore is released.
pub scull_read-Settled :
    {d : ScullDev} (count : ℕ) (user : Copy) (mem : List Bool) (pos : ℕ)
    → Idle d
    → Reachable d pos
    → Settled (scull_read false count user mem pos d (down d))
unfolding scull_read
scull_read-Settled {d} count user mem pos i reach = elim (Bool-cases (leb d.size pos)) [
  | inl h ↦ rw h (Idle-again (down d) i refl refl (omega (arith, i.free)) i.valid.shaped)
  | inr h ↦ rw h (read_at-Settled i _ user mem pos reach)
]
