-- ===== src/ScullMapped/Drivers.antt =====
-- Writes of scullc, scullp, sculld and scullv of LinuxDeviceDrivers3Ed, and quanta that are too short
-- for them.
use leipocode.Base.{
  ℕ, ◌+◌, ◌-◌, ◌*◌, ◌^◌, ◌≤◌, ◌<◌, ◌≡◌, ◌⊎◌, inl, inr, sym, subst, Bool, true, false, none, some,
  List, ◌∷◌, arith, ltb, length, get_elem?, replicate, min, lt→ltb, eq→==, ne→==, Bool-cases,
  length-replicate, length-write_at,
}
use leipocode.Kernel.{Copy, all}
use leipocode.Scull.{
  ScullDev, Outcome, Quantum, Qset, overrun, Place, place, slot, hole, filled, with_array,
  with_quantum, put_slot, Followed,
}
use leipocode.Scull.Valid.{IsValid}
use leipocode.Scull.Slots.{get_elem?-in, slot-put_slot}
use leipocode.Scull.Follow.{scull_follow-there}
use leipocode.Scull.Places.{Reachable, computable_of}
use leipocode.Scull.Write.{Idle}
use leipocode.ScullMapped.{Dev, Defaults, core, write_dev, page_size, cleared}
use leipocode.ScullMapped.Laws.{Reread, write_dev-Reread}
use leipocode.ScullMapped.Scullc.{scullc_write}
use leipocode.ScullMapped.Scullp.{scullp_write}
use leipocode.ScullMapped.Scullp
use leipocode.ScullMapped.Sculld.{sculld_write}
use leipocode.ScullMapped.Scullv.{scullv_write}

-- The device that `down_interruptible` leaves to the operation.
abbrev pub down : Dev → Dev
down d = record d { sem = d.sem - 1 }

-- The size of a quantum of an order.
abbrev pub block : Dev → ℕ
block d = page_size * 2 ^ d.unit

-- `scullc_write` of at least one byte, on an idle device, whose arrays have `qset` entries and whose
-- quanta all have `quantum` bytes, at a position whose item an `int` can number, where
-- `scullc_quantum` is no more than the quantum of the device and the cache has objects of that quantum,
-- with memory for the items, an array and an object: as many bytes as fit in the quantum are written, a read gives them back, and all other
-- quanta are as they were.
pub scullc_write-Reread :
    (d : Dev) (p : Defaults) (src fresh : List ℕ) (m pos : ℕ)
    → Idle (core d.unit d)
    → length fresh ≡ d.unit
    → p.unit ≤ d.unit
    → Reachable (core d.unit d) pos
    → 0 < length src
    → (place d.unit d.qset pos).item + 2 < m
    → Reread
        (core d.unit d)
        src
        pos
        (min (length src) (d.unit - (place d.unit d.qset pos).q_pos))
        (scullc_write p false src all (replicate m true) fresh pos d (down d))
unfolding scullc_write
scullc_write-Reread d p src fresh m pos i size small reach some_bytes enough =
    write_dev-Reread i p.unit src fresh m pos size small reach some_bytes enough

-- `scullp_write` of at least one byte, on an idle device, whose arrays have `qset` entries and whose
-- quanta all have the full size of the device's order (so that, of an order above 0, no quantum has been
-- put behind the first item), at a position whose item an `int` can number, in the first item or on a
-- device of order 0, with memory for the items, an array and a block of pages: as many bytes as fit in the quantum are written, a read
-- gives them back, and all other quanta are as they were.
pub scullp_write-Reread :
    (d : Dev) (src : List ℕ) (byte m pos : ℕ)
    → Idle (core (block d) d)
    → ((place (block d) d.qset pos).item ≡ 0) ⊎ (d.unit ≡ 0)
    → Reachable (core (block d) d) pos
    → 0 < length src
    → (place (block d) d.qset pos).item + 2 < m
    → Reread
        (core (block d) d)
        src
        pos
        (min (length src) (block d - (place (block d) d.qset pos).q_pos))
        (scullp_write false src all (replicate m true) byte pos d (down d))
unfolding scullp_write
scullp_write-Reread d src byte m pos i first reach some_bytes enough =
    let same : Scullp.item_order pos d d ≡ d.unit = elim first [
      | inl e ↦ rw (eq→== (place (block d) d.qset pos).item 0 e)
      | inr e ↦ ground (arith, e)
    ] in
    rw same (
      write_dev-Reread i (block d) src (replicate (block d) byte) m pos
        (length-replicate (block d) byte) (omega arith) reach some_bytes enough)

array_there :
    (n : ℕ) (p : Place) (r : Followed) (a : List Quantum)
    → get_elem? r.items p.item ≡ some (some a)
    → with_array n p r ≡ r
unfolding with_array
array_there n p r a e = rw (with_array, e)

slot_hole :
    (p : Place) (xs : List Qset) (a : List Quantum)
    → get_elem? xs p.item ≡ some (some a)
    → get_elem? a p.s_pos ≡ some none
    → slot p xs ≡ hole
unfolding slot
slot_hole p xs a e h = rw (slot, e, h)

quantum_there :
    (p : Place) (new : List ℕ) (xs : List Qset) (mem : List Bool)
    → slot p xs ≡ hole
    → with_quantum p new (record { items = xs; mem = true ∷ mem; found = true })
      ≡ record { items = put_slot p new xs; mem = mem; found = true }
unfolding with_quantum
quantum_there p new xs mem h = rw (with_quantum, h)

-- A write into a hole of an array: the quantum is cleared and filled.
write_hole :
    (d : ScullDev) (clear : ℕ) (src : List ℕ) (user : Copy) (mem : List Bool) (fresh : List ℕ)
    (pos : ℕ) (a : List Quantum)
    → 0 < d.quantum * d.qset
    → d.quantum * d.qset < 2 ^ 31
    → Reachable d pos
    → let p = place d.quantum d.qset pos in
      get_elem? d.items p.item ≡ some (some a)
      → get_elem? a p.s_pos ≡ some none
      → (length fresh < clear) ⊎ (length fresh < p.q_pos + min (length src) (d.quantum - p.q_pos))
      → write_dev d.quantum d.qset clear false src user (true ∷ mem) fresh pos d ≡ overrun
unfolding write_dev
write_hole d clear src user mem fresh pos a some_room in_int reach e h short =
    let p = place d.quantum d.qset pos in
    let now : Followed = record { items = d.items; mem = true ∷ mem; found = true } in
    let there = scull_follow-there p.item (true ∷ mem) d.items (get_elem?-in d.items p.item _ e) in
    let array : with_array d.qset p now ≡ now = array_there d.qset p now a e in
    let empty : slot p d.items ≡ hole = slot_hole p d.items a e h in
    let new = cleared clear fresh in
    let filling : with_quantum p new now
        ≡ record { items = put_slot p new d.items; mem = mem; found = true } =
      quantum_there p new d.items mem empty in
    let full : slot p (put_slot p new d.items) ≡ filled new =
      slot-put_slot p new d.items a e (get_elem?-in a p.s_pos none h) in
    let c = computable_of d pos some_room in_int reach in
    let l : length new ≡ length fresh = length-write_at 0 (replicate clear 0) fresh in
    let k = min (length src) (d.quantum - p.q_pos) in
    let under : ltb (length fresh) clear ≡ false → length fresh < p.q_pos + k =
      λ t. elim short [ inl s ↦ absurd (ground (arith, t, s)) | inr s ↦ s ] in
    elim (Bool-cases (ltb (length fresh) clear)) [
      | inl t ↦ rw (c, there, array, filling, empty, t)
      | inr t ↦ rw (
        c,
        there,
        array,
        filling,
        empty,
        t,
        full,
        lt→ltb (length new) (p.q_pos + k) (omega (arith, under t, l)),
      )
    ]

-- `scullc_write` that puts a new quantum into an array, when `scullc_quantum` has grown past the size
-- of the objects of the cache: the `memset` runs over the end of the object.
pub grown_quantum_overruns :
    (d : Dev) (p : Defaults) (src : List ℕ) (user : Copy) (mem : List Bool) (fresh : List ℕ)
    (pos : ℕ) (a : List Quantum)
    → IsValid (core d.unit d)
    → Reachable (core d.unit d) pos
    → get_elem? d.items (place d.unit d.qset pos).item ≡ some (some a)
    → get_elem? a (place d.unit d.qset pos).s_pos ≡ some none
    → length fresh < p.unit
    → scullc_write p false src user (true ∷ mem) fresh pos d d ≡ overrun
unfolding scullc_write
grown_quantum_overruns d p src user mem fresh pos a v reach e h grown =
    write_hole (core d.unit d) p.unit src user mem fresh pos a v.some_bytes v.in_range reach e h
      (inl grown)

-- A write of scullp, of sculld and of scullv, on a device whose items have at least one byte and fewer
-- than 2 ^ 31, at a position whose item an `int` can number, that puts a new quantum into the array of
-- an item behind the first and reaches past the first page of it: the quantum is one page, whatever the
-- order of the device, and the copy runs over its end.
pub items_behind_overrun :
    (d : Dev) (src : List ℕ) (user : Copy) (mem : List Bool) (byte pos : ℕ) (a : List Quantum)
    → 0 < block d * d.qset
    → block d * d.qset < 2 ^ 31
    → Reachable (core (block d) d) pos
    → let p = place (block d) d.qset pos in
      0 < p.item
      → get_elem? d.items p.item ≡ some (some a)
      → get_elem? a p.s_pos ≡ some none
      → page_size < p.q_pos + min (length src) (block d - p.q_pos)
      → (scullp_write false src user (true ∷ mem) byte pos d d ≡ overrun)
        × (sculld_write false src user (true ∷ mem) byte pos d d ≡ overrun)
        × (scullv_write false src user (true ∷ mem) byte pos d d ≡ overrun)
unfolding scullp_write sculld_write scullv_write
items_behind_overrun d src user mem byte pos a some_room in_int reach behind e h long =
    let zero_order : Scullp.item_order pos d d ≡ 0 =
      rw (ne→== (place (block d) d.qset pos).item 0 (omega arith)) in
    let at_order : (o : ℕ) → Outcome = λ o.
      write_dev (block d) d.qset (page_size * 2 ^ o) false src user (true ∷ mem)
        (replicate (page_size * 2 ^ o) byte) pos (core (block d) d) in
    let hit : at_order 0 ≡ overrun =
      write_hole (core (block d) d) page_size src user mem (replicate page_size byte) pos a
        some_room in_int reach e h (inr (omega (arith, long, length-replicate page_size byte))) in
    let run : at_order (Scullp.item_order pos d d) ≡ overrun =
      subst (λ o. at_order o ≡ overrun) (sym zero_order) hit in
    (run, run, run)
