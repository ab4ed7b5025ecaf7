-- ===== src/Scull/Slots.antt =====
-- Lookups behind the stores of LinuxDeviceDrivers3Ed/scull/main.c into its two-level arrays.
use leipocode.Base.{
  ℕ, zero, suc, ◌<◌, ◌≤◌, ◌≡◌, sym, ◌≢◌, ◌⊎◌, inl, inr, none, some, List, [], ◌∷◌, arith, length,
  get_elem?, set, get_elem?-set_same, get_elem?-set_other, Option-cases, subst,
}
use native.Mathlib.Decide.{ℕ_discrete}
use leipocode.Scull.Valid.{Shaped, ItemShaped, Fits, Quanta-get_elem?, Shaped-get_elem?}
use leipocode.Scull.{Quantum, Qset, filled, Place, in_array, slot, put_slot}

module _ {ℓ} {A : Type ℓ} where
  pub get_elem?-none : (xs : List A) (i : ℕ) → get_elem? xs i ≡ none → length xs ≤ i
  get_elem?-none [] i e = omega arith
  get_elem?-none (x ∷ xs) zero e = absurd (cc e)
  get_elem?-none (x ∷ xs) (suc i) e = omega (arith, get_elem?-none xs i e)

  pub get_elem?-in : (xs : List A) (i : ℕ) (v : A) → get_elem? xs i ≡ some v → i < length xs
  get_elem?-in [] i v e = absurd (cc e)
  get_elem?-in (x ∷ xs) zero v e = omega arith
  get_elem?-in (x ∷ xs) (suc i) v e = omega (arith, get_elem?-in xs i v e)

module _ (p : Place) (b : List ℕ) (xs : List Qset) (a : List Quantum) where
  pub slot-put_slot :
      get_elem? xs p.item ≡ some (some a) → p.s_pos < length a → slot p (put_slot p b xs) ≡ filled b
  unfolding slot put_slot
  slot-put_slot e h = rw (
    slot,
    put_slot,
    e,
    get_elem?-set_same xs p.item (some (set a p.s_pos (some b))) (get_elem?-in xs _ _ e),
    get_elem?-set_same a p.s_pos (some b) h,
  )

  pub slot-put_slot_other :
      (r : Place)
      → get_elem? xs p.item ≡ some (some a)
      → (p.item ≢ r.item) ⊎ (p.s_pos ≢ r.s_pos)
      → slot r (put_slot p b xs) ≡ slot r xs
  unfolding slot put_slot
  slot-put_slot_other r e (inl ne) =
      rw
        (slot, put_slot, e, get_elem?-set_other xs p.item r.item (some (set a p.s_pos (some b))) ne)
  slot-put_slot_other r e (inr ne) = elim (ℕ_discrete p.item r.item) [
    | yes same ↦ rw (
      slot,
      put_slot,
      e,
      sym same,
      get_elem?-set_same xs p.item (some (set a p.s_pos (some b))) (get_elem?-in xs _ _ e),
      get_elem?-set_other a p.s_pos r.s_pos (some b) ne,
      e,
    )
    | no other ↦ rw (
      slot,
      put_slot,
      e,
      get_elem?-set_other xs p.item r.item (some (set a p.s_pos (some b))) other,
    )
  ]

-- A slot of an item that is there, within the array, is a quantum of the right size or a hole.
pub slot-Fits :
    (q n : ℕ) (p : Place) (xs : List Qset)
    → Shaped q n xs
    → p.item < length xs
    → p.s_pos < n
    → Fits q (slot p xs)
unfolding slot
slot-Fits q n p xs s h k = elim (Option-cases (get_elem? xs p.item)) [
  | inl e ↦ absurd (omega (arith, get_elem?-none xs p.item e))
  | inr (none, e) ↦ rw (slot, e) tt
  | inr (some a, e) ↦
      let item : ItemShaped q n (some a) = Shaped-get_elem? q n xs p.item (some a) e s in
      subst (λ x. Fits q (in_array p.s_pos x)) (sym e)
        (Quanta-get_elem? q a p.s_pos (omega (arith, item.0)) item.1)
]
