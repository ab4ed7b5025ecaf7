-- ===== src/Scull/Reread.antt =====
-- What `scull_read` of LinuxDeviceDrivers3Ed/scull/main.c finds behind `scull_write`.
use leipocode.Base.{
  ℕ, ◌+◌, ◌-◌, ◌%◌, ◌^◌, ◌≤◌, ◌<◌, ◌≡◌, ◌≢◌, ◌⊎◌, refl, subst, ap, ◌∙◌, min, Bool, true, false,
  List, [], arith, ltb, if◌then◌else◌, length, take, replicate, slice, write_at, le→ltb, lt→leb,
  length-take, length-write_at, slice-write_at_self,
}
use native.Mathlib.Nat.{mod-le}
use leipocode.Kernel.{returns, all}
use leipocode.Scull.{
  ScullDev, Outcome, done, up, Place, filled, place, slot, put_slot, read_at, scull_read,
  scull_write,
}
use leipocode.Scull.Slots.{get_elem?-in, slot-put_slot, slot-put_slot_other}
use leipocode.Scull.Places.{Reachable, place-s_pos, place-q_pos, computable_lem}
use leipocode.Scull.Follow.{scull_follow-there}
use leipocode.Scull.Prepare.{put_slot-item}
use leipocode.Scull.Enough.{allocations-enough}
use leipocode.Scull.Write.{Idle, down, prepared, prepared-Prepared, scull_write-copies, copy_fits}

-- A read of `k` bytes that are in one quantum, below the size.
pub read_filled :
    {d : ScullDev} (e : ScullDev) (i : Idle d) (b : List ℕ) (k : ℕ) (mem : List Bool) (pos : ℕ)
    → Reachable d pos
    → e.quantum ≡ d.quantum
    → e.qset ≡ d.qset
    → let p = place d.quantum d.qset pos in
      p.item < length e.items
      → slot p e.items ≡ filled b
      → length b ≡ d.quantum
      → k ≤ d.quantum - p.q_pos
      → 0 < k
      → pos + k ≤ e.size
      → scull_read false k all mem pos e (down e)
        ≡ done (returns k) (slice b p.q_pos k) (pos + k) (up (down e))
unfolding scull_read read_at
read_filled {d} e i b k mem pos reach same_q same_n there full l most some_bytes below =
    let p = place d.quantum d.qset pos in
    let wrapped : (pos + k) % 2 ^ 64 ≤ pos + k = mod-le (pos + k) (2 ^ 64) in
    let whole : min k (d.quantum - p.q_pos) ≡ k = omega arith in
    rw (
      lt→leb e.size pos (omega arith),
      le→ltb e.size ((pos + k) % 2 ^ 64) (omega arith),
      same_q,
      same_n,
      computable_lem pos i.valid reach,
      scull_follow-there p.item mem e.items there,
      full,
      whole,
      le→ltb (length b) (p.q_pos + k) (omega (arith, place-q_pos pos i.valid)),
    )

-- The end of a write of `k` bytes at `pos`, and of a read of them.
pub record Reread (d : ScullDev) (src : List ℕ) (pos k : ℕ) (out : Outcome) : Type 0 where
  pub dev : ScullDev
  pub result : out ≡ done (returns k) [] (pos + k) dev
  pub reread :
      (mem : List Bool)
      → scull_read false k all mem pos dev (down dev)
        ≡ done (returns k) (take k src) (pos + k) (up (down dev))
  pub same_quantum : dev.quantum ≡ d.quantum
  pub same_qset : dev.qset ≡ d.qset
  pub below : pos + k ≤ dev.size
  pub there : (place dev.quantum dev.qset pos).item < length dev.items
  pub others :
      (r : Place) (b : List ℕ)
      → let p = place d.quantum d.qset pos in
        (p.item ≢ r.item) ⊎ (p.s_pos ≢ r.s_pos)
        → slot r d.items ≡ filled b
        → slot r dev.items ≡ filled b

-- A write of at least one byte at a position whose item an `int` can number, on an idle device and
-- with memory for the items up to that one, an array and a quantum, of the size asked for: it
-- returns the smaller of the number of bytes given and what is left of the quantum, moves the
-- position so far, and a read of that count at the old position gives those bytes back. All other
-- quanta are as they were.
pub scull_write-Reread :
    {d : ScullDev} (i : Idle d) (src fresh : List ℕ) (m pos : ℕ)
    → let p = place d.quantum d.qset pos in
      length fresh ≡ d.quantum
      → Reachable d pos
      → 0 < length src
      → p.item + 2 < m
      → Reread d src pos
          (min (length src) (d.quantum - p.q_pos))
          (scull_write false src all (replicate m true) fresh pos d (down d))
scull_write-Reread {d} i src fresh m pos size reach some_bytes enough =
    let p = place d.quantum d.qset pos in
    let k = min (length src) (d.quantum - p.q_pos) in
    let mem = replicate m true in
    let xs = (prepared d fresh mem pos).items in
    let found = allocations-enough d.qset m p fresh d.items enough in
    let prep = prepared-Prepared i src all mem fresh pos size reach in
    let (a, b, e, full, la, lb) = prep.ready found in
    let s_in : p.s_pos < length a = omega (arith, la, place-s_pos pos i.valid) in
    let q_in = place-q_pos pos i.valid in
    let bytes = take k src in
    let count : length bytes ≡ k = omega (arith, length-take k src) in
    let b' = write_at p.q_pos bytes b in
    let l' : length b' ≡ d.quantum = length-write_at p.q_pos bytes b ∙ lb in
    let dev : ScullDev = up (record (down d) {
      items = put_slot p b' xs;
      size = if ltb d.size (pos + k) then pos + k else d.size;
    }) in
    let there : p.item < length dev.items =
      get_elem?-in dev.items p.item _ (put_slot-item p b' xs a e) in
    let back : slice b' p.q_pos k ≡ bytes =
      subst (λ n. slice b' p.q_pos n ≡ bytes) count
        (slice-write_at_self b bytes p.q_pos (omega arith)) in
    record {
      dev = dev;
      result =
          scull_write-copies i src all mem fresh pos size reach b found full
          ∙ rw (copy_fits i src all mem fresh pos size reach b lb);
      reread = λ mem'.
          read_filled dev i b' k mem' pos reach refl refl there (slot-put_slot p b' xs a e s_in) l'
            (omega arith) (omega arith) (ground arith)
          ∙ ap (λ l. done (returns k) l (pos + k) (up (down dev))) back;
      same_quantum = refl;
      same_qset = refl;
      below = ground arith;
      there = there;
      others = λ r c ne h. slot-put_slot_other p b' xs a r e ne ∙ prep.kept.kept r c h;
    }
