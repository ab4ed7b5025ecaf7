-- ===== src/ScullMapped/Laws.antt =====
-- The drivers of LinuxDeviceDrivers3Ed/scullc and its like read and write as scull does, where the
-- memory is enough.
use leipocode.Base.{
  ℕ, ◌+◌, ◌-◌, ◌≤◌, ◌<◌, ◌≡◌, refl, ap, subst, ◌∙◌, Bool, true, false, List, arith, length,
  replicate, le→ltb, lt→leb, length-write_at, min, take, [], ◌≢◌, ◌⊎◌,
}
use leipocode.Kernel.{Copy, returns, all}
use leipocode.Scull.{
  ScullDev, filled, place, slot, scull_follow, read_at, scull_read, scull_write, Outcome, done, up,
  Place, Followed,
}
use leipocode.Scull.Follow.{scull_follow-enough, scull_follow-there}
use leipocode.Scull.Places.{Reachable, place-q_pos}
use leipocode.Scull.Write.{Idle, down}
use leipocode.Scull.Reread.{scull_write-Reread}
use leipocode.ScullMapped.{read_dev, write_dev, cleared}

-- Below the size, where no item has to be allocated in vain.
pub read_dev-scull_read :
    (a d : ScullDev) (signal : Bool) (count : ℕ) (user : Copy) (mem : List Bool) (pos : ℕ)
    → pos < d.size
    → (scull_follow (place a.quantum a.qset pos).item mem d.items).found ≡ true
    → read_dev a.quantum a.qset signal count user mem pos d
      ≡ scull_read signal count user mem pos a d
unfolding read_dev scull_read read_at
read_dev-scull_read a d true count user mem pos h f = refl
read_dev-scull_read a d false count user mem pos h f =
    rw (f, le→ltb d.size pos (omega arith), lt→leb d.size pos h)

-- Where no item has to be allocated in vain, and the memory for a quantum is as long as what is
-- cleared of it.
pub write_dev-scull_write :
    (a d : ScullDev) (clear : ℕ) (signal : Bool) (src : List ℕ) (user : Copy) (mem : List Bool)
    (fresh : List ℕ) (pos : ℕ)
    → clear ≤ length fresh
    → (scull_follow (place a.quantum a.qset pos).item mem d.items).found ≡ true
    → write_dev a.quantum a.qset clear signal src user mem fresh pos d
      ≡ scull_write signal src user mem (cleared clear fresh) pos a d
unfolding write_dev scull_write
write_dev-scull_write a d clear true src user mem fresh pos h f = refl
write_dev-scull_write a d clear false src user mem fresh pos h f =
    rw (f, le→ltb (length fresh) clear h)

-- A write and a read of what it wrote.
pub record Reread (d : ScullDev) (src : List ℕ) (pos k : ℕ) (out : Outcome) : Type 0 where
  pub dev : ScullDev
  pub result : out ≡ done (returns k) [] (pos + k) dev
  pub reread :
      (mem : List Bool)
      → read_dev d.quantum d.qset false k all mem pos (down dev)
        ≡ done (returns k) (take k src) (pos + k) (up (down dev))
  pub others :
      (r : Place) (b : List ℕ)
      → let p = place d.quantum d.qset pos in
        (p.item ≢ r.item) ⊎ (p.s_pos ≢ r.s_pos)
        → slot r d.items ≡ filled b
        → slot r dev.items ≡ filled b

-- As of scull, where the memory that is cleared has the size of a quantum.
pub write_dev-Reread :
    {d : ScullDev} (i : Idle d) (clear : ℕ) (src fresh : List ℕ) (m pos : ℕ)
    → let p = place d.quantum d.qset pos in
      length fresh ≡ d.quantum
      → clear ≤ d.quantum
      → Reachable d pos
      → 0 < length src
      → p.item + 2 < m
      → Reread d src pos
          (min (length src) (d.quantum - p.q_pos))
          (write_dev d.quantum d.qset clear false src all (replicate m true) fresh pos (down d))
write_dev-Reread {d} i clear src fresh m pos size small reach some_bytes enough =
    let p = place d.quantum d.qset pos in
    let k = min (length src) (d.quantum - p.q_pos) in
    let found = (scull_follow-enough p.item m d.items (omega arith)).0 in
    let s =
      scull_write-Reread i src (cleared clear fresh) m pos
        (length-write_at 0 (replicate clear 0) fresh ∙ size) reach some_bytes enough in
    record {
      dev = s.dev;
      result =
          write_dev-scull_write d (down d) clear false src all (replicate m true) fresh pos
            (omega arith) found
          ∙ s.result;
      reread = λ mem.
          let back =
            read_dev-scull_read s.dev (down s.dev) false k all mem pos
              (omega (arith, s.below, place-q_pos pos i.valid))
              (ap (λ (r : Followed). r.found) (scull_follow-there _ mem s.dev.items s.there)) in
          let end : Outcome = done (returns k) (take k src) (pos + k) (up (down s.dev)) in
          subst (λ q. read_dev q d.qset false k all mem pos (down s.dev) ≡ end) s.same_quantum
            (subst (λ n. read_dev s.dev.quantum n false k all mem pos (down s.dev) ≡ end)
              s.same_qset (back ∙ s.reread mem));
      others = s.others;
    }
