-- ===== src/Scull/WithArray.antt =====
-- The array that `scull_write` of LinuxDeviceDrivers3Ed/scull/main.c allocates for an item.
use leipocode.Base.{
  get_elem?-set_same, ℕ, ◌<◌, ◌≡◌, refl, sym, subst, inl, inr, Bool, true, false, none, some, List,
  [], ◌∷◌, arith, length, get_elem?, set, replicate, Option-cases, length-replicate,
}
use leipocode.Scull.{Quantum, Qset, Followed, Place, allocate, with_array}
use leipocode.Scull.Valid.{Shaped, Quanta-replicate, Shaped-set}
use leipocode.Scull.Slots.{get_elem?-in, get_elem?-none}
use leipocode.Scull.Kept.{Kept, Kept-refl, array-Kept}

-- The list is well formed and holds what it held; where the memory was enough, the item has an
-- array.
pub record WithArray (q n : ℕ) (p : Place) (xs : List Qset) (r : Followed) : Type 0 where
  pub shaped : Shaped q n r.items
  pub kept : Kept xs r.items
  pub ready : r.found ≡ true → (a : List Quantum) × (get_elem? r.items p.item ≡ some (some a))

pub allocate_array :
    (q n : ℕ) (p : Place) (mem : List Bool) (xs : List Qset)
    → Shaped q n xs
    → get_elem? xs p.item ≡ some none
    → WithArray q n p xs (
        allocate
          (set xs p.item (some (replicate n none)))
          (record { items = xs; mem = mem; found = true })
          mem)
allocate_array q n p [] xs s e = record {
  shaped = s;
  kept = Kept-refl xs;
  ready = λ h. absurd (cc h);
}
allocate_array q n p (false ∷ mem) xs s e = record {
  shaped = s;
  kept = Kept-refl xs;
  ready = λ h. absurd (cc h);
}
allocate_array q n p (true ∷ mem) xs s e = record {
  shaped =
      Shaped-set q n xs p.item (some (replicate n none))
        (length-replicate n none, Quanta-replicate q n) s;
  kept = array-Kept n p.item xs e;
  ready = λ h. (
    replicate n none,
    get_elem?-set_same xs p.item (some (replicate n none)) (get_elem?-in xs p.item none e),
  );
}

pub with_array-WithArray :
    (q n : ℕ) (p : Place) (xs : List Qset) (mem : List Bool) (found : Bool)
    → Shaped q n xs
    → (found ≡ true → p.item < length xs)
    → WithArray q n p xs (with_array n p (record { items = xs; mem = mem; found = found }))
unfolding with_array
with_array-WithArray q n p xs mem false s there =
    let same : with_array n p (record { items = xs; mem = mem; found = false })
        ≡ record { items = xs; mem = mem; found = false } =
      elim (Option-cases (get_elem? xs p.item)) [
        | inl e ↦ rw (with_array, e)
        | inr (none, e) ↦ rw (with_array, e)
        | inr (some a, e) ↦ rw (with_array, e)
      ] in
    subst (WithArray q n p xs) (sym same)
      (record { shaped = s; kept = Kept-refl xs; ready = λ h. absurd (cc h) })
with_array-WithArray q n p xs mem true s there = elim (Option-cases (get_elem? xs p.item)) [
  | inl e ↦ absurd (omega (arith, get_elem?-none xs p.item e, there refl))
  | inr (none, e) ↦
      let computed : with_array n p (record { items = xs; mem = mem; found = true })
          ≡ allocate (set xs p.item (some (replicate n none)))
              (record { items = xs; mem = mem; found = true }) mem =
        rw (with_array, e) in
      subst (WithArray q n p xs) (sym computed) (allocate_array q n p mem xs s e)
  | inr (some a, e) ↦
      let same : with_array n p (record { items = xs; mem = mem; found = true })
          ≡ record { items = xs; mem = mem; found = true } =
        rw (with_array, e) in
      subst (WithArray q n p xs) (sym same)
        (record { shaped = s; kept = Kept-refl xs; ready = λ h. (a, e) })
]
