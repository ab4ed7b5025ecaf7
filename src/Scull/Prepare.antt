-- ===== src/Scull/Prepare.antt =====
-- The allocations of `scull_write` of LinuxDeviceDrivers3Ed/scull/main.c: they lose nothing that the
-- device holds, and the quantum is there behind them unless `kmalloc` fails.
use leipocode.Base.{
  get_elem?-set_same, ℕ, ◌<◌, ◌≡◌, refl, sym, subst, ap, ◌⊎◌, ◌∙◌, inl, inr, Bool, true, false,
  some, List, [], ◌∷◌, arith, length, get_elem?, set, length-set,
}
use leipocode.Scull.{
  Quantum, Qset, Followed, Place, Slot, hole, filled, outside, entry, in_array, slot, put_slot,
  allocate, scull_follow, with_array, with_quantum,
}
use leipocode.Scull.Valid.{
  Shaped, ItemShaped, Fits, Quanta-set, Quanta-get_elem?, Shaped-set, Shaped-get_elem?,
}
use leipocode.Scull.Slots.{get_elem?-in, slot-put_slot}
use leipocode.Scull.Follow.{scull_follow-Shaped, scull_follow-found}
use leipocode.Scull.Kept.{Kept, Kept-trans, scull_follow-Kept, quantum-Kept}
use leipocode.Scull.WithArray.{WithArray, with_array-WithArray}

-- Behind all allocations: where the memory was enough, the quantum is there.
pub record Prepared (q n : ℕ) (p : Place) (xs : List Qset) (r : Followed) : Type 0 where
  pub shaped : Shaped q n r.items
  pub kept : Kept xs r.items
  pub ready :
      r.found ≡ true
      → (a : List Quantum) × (b : List ℕ) × (get_elem? r.items p.item ≡ some (some a))
        × (slot p r.items ≡ filled b)
        × (length a ≡ n)
        × (length b ≡ q)

Fits-cases :
    (q : ℕ) {x : Slot} (y : Slot)
    → x ≡ y
    → Fits q y
    → (x ≡ hole) ⊎ ((b : List ℕ) × (x ≡ filled b) × (length b ≡ q))
Fits-cases q hole e f = inl e
Fits-cases q (filled b) e f = inr (b, e, f)
Fits-cases q outside e f = elim f [ ]

-- A quantum or a hole, where the item has an array.
slot_cases :
    {q n : ℕ} (p : Place) (xs : List Qset) (a : List Quantum)
    → Shaped q n xs
    → p.s_pos < n
    → get_elem? xs p.item ≡ some (some a)
    → (slot p xs ≡ hole) ⊎ ((b : List ℕ) × (slot p xs ≡ filled b) × (length b ≡ q))
unfolding slot
slot_cases {q} {n} p xs a s h e =
    let item : ItemShaped q n (some a) = Shaped-get_elem? q n xs p.item (some a) e s in
    let fits : Fits q (entry (get_elem? a p.s_pos)) =
      Quanta-get_elem? q a p.s_pos (omega (arith, item.0)) item.1 in
    let back : slot p xs ≡ entry (get_elem? a p.s_pos) = ap (in_array p.s_pos) e in
    Fits-cases q _ back fits

-- A quantum of the right size is put in.
pub put_slot-Shaped :
    (q n : ℕ) (p : Place) (b : List ℕ) (xs : List Qset) (a : List Quantum)
    → length b ≡ q
    → get_elem? xs p.item ≡ some (some a)
    → Shaped q n xs
    → Shaped q n (put_slot p b xs)
unfolding put_slot
put_slot-Shaped q n p b xs a h e s =
    let item : ItemShaped q n (some a) = Shaped-get_elem? q n xs p.item (some a) e s in
    let put = some (set a p.s_pos (some b)) in
    let computed : put_slot p b xs ≡ set xs p.item put = rw (put_slot, e) in
    subst (Shaped q n) (sym computed) (
      Shaped-set q n xs p.item put
        (length-set a p.s_pos (some b) ∙ item.0, Quanta-set a p.s_pos b h item.1) s)

pub put_slot-item :
    (p : Place) (b : List ℕ) (xs : List Qset) (a : List Quantum)
    → get_elem? xs p.item ≡ some (some a)
    → get_elem? (put_slot p b xs) p.item ≡ some (some (set a p.s_pos (some b)))
unfolding put_slot
put_slot-item p b xs a e =
    rw (put_slot, e) (get_elem?-set_same xs p.item _ (get_elem?-in xs p.item (some a) e))

allocate_quantum :
    {q n : ℕ} (p : Place) (fresh : List ℕ) (xs ys : List Qset) (a : List Quantum) (mem : List Bool)
    → length fresh ≡ q
    → p.s_pos < n
    → Shaped q n ys
    → Kept xs ys
    → get_elem? ys p.item ≡ some (some a)
    → slot p ys ≡ hole
    → Prepared q n p xs
        (allocate (put_slot p fresh ys) (record { items = ys; mem = mem; found = true }) mem)
allocate_quantum p fresh xs ys a [] f h s k e hollow = record {
  shaped = s;
  kept = k;
  ready = λ no. absurd (cc no);
}
allocate_quantum p fresh xs ys a (false ∷ mem) f h s k e hollow = record {
  shaped = s;
  kept = k;
  ready = λ no. absurd (cc no);
}
allocate_quantum {q} {n} p fresh xs ys a (true ∷ mem) f h s k e hollow =
    let item : ItemShaped q n (some a) = Shaped-get_elem? q n ys p.item (some a) e s in
    record {
      shaped = put_slot-Shaped q n p fresh ys a f e s;
      kept = Kept-trans k (quantum-Kept p fresh ys a e hollow);
      ready = λ _. (
        set a p.s_pos (some fresh),
        fresh,
        put_slot-item p fresh ys a e,
        slot-put_slot p fresh ys a e (omega (arith, item.0)),
        length-set a p.s_pos (some fresh) ∙ item.0,
        f,
      );
    }

with_quantum-Prepared :
    {q n : ℕ} (p : Place) (fresh : List ℕ) (xs ys : List Qset) (mem : List Bool) (found : Bool)
    → length fresh ≡ q
    → p.s_pos < n
    → WithArray q n p xs (record { items = ys; mem = mem; found = found })
    → Prepared q n p xs (with_quantum p fresh (record { items = ys; mem = mem; found = found }))
unfolding with_quantum
with_quantum-Prepared {q} {n} p fresh xs ys mem false f h w =
    let same : with_quantum p fresh (record { items = ys; mem = mem; found = false })
        ≡ record { items = ys; mem = mem; found = false } =
      ground arith in
    subst (Prepared q n p xs) (sym same)
      (record { shaped = w.shaped; kept = w.kept; ready = λ yes. absurd (cc yes) })
with_quantum-Prepared {q} {n} p fresh xs ys mem true f h w =
    let (a, e) = w.ready refl in
    elim (slot_cases p ys a w.shaped h e) [
      | inl hollow ↦
          let computed : with_quantum p fresh (record { items = ys; mem = mem; found = true })
              ≡ allocate (put_slot p fresh ys) (record { items = ys; mem = mem; found = true })
                  mem =
            rw (with_quantum, hollow) in
          subst (Prepared q n p xs) (sym computed)
            (allocate_quantum p fresh xs ys a mem f h w.shaped w.kept e hollow)
      | inr (b, full, size) ↦
          let same : with_quantum p fresh (record { items = ys; mem = mem; found = true })
              ≡ record { items = ys; mem = mem; found = true } =
            rw (with_quantum, full) in
          let item : ItemShaped q n (some a) = Shaped-get_elem? q n ys p.item (some a) e w.shaped in
          subst (Prepared q n p xs) (sym same) (record {
            shaped = w.shaped;
            kept = w.kept;
            ready = λ _. (a, b, e, full, item.0, size);
          })
    ]

-- The allocations of `scull_write`.
pub allocations :
    {q n : ℕ} (p : Place) (fresh : List ℕ) (mem : List Bool) (xs : List Qset)
    → length fresh ≡ q
    → p.s_pos < n
    → Shaped q n xs
    → Prepared q n p xs (with_quantum p fresh (with_array n p (scull_follow p.item mem xs)))
allocations {q} {n} p fresh mem xs f h s =
    let r = scull_follow p.item mem xs in
    let w : WithArray q n p r.items (with_array n p r) =
      with_array-WithArray q n p r.items r.mem r.found (scull_follow-Shaped q n p.item mem xs s)
        (scull_follow-found p.item mem xs) in
    let o = with_array n p r in
    with_quantum-Prepared p fresh xs o.items o.mem o.found f h (record {
      shaped = w.shaped;
      kept = Kept-trans (scull_follow-Kept p.item mem xs) w.kept;
      ready = w.ready;
    })
