-- ===== src/Scull/Kept.antt =====
-- What the stores of LinuxDeviceDrivers3Ed/scull/main.c keep of a device: every quantum that it
-- holds.
use leipocode.Base.{
  get_elem?-set_other, ℕ, ◌≡◌, sym, ap, ap₂, ◌∙◌, inl, inr, Bool, none, some, List, get_elem?, set,
  replicate, Option-cases,
}
use native.Mathlib.Decide.{ℕ_discrete}
use leipocode.Scull.{Quantum, Qset, Place, hole, filled, in_array, slot, put_slot, scull_follow}
use leipocode.Scull.Slots.{slot-put_slot_other}
use leipocode.Scull.Follow.{scull_follow-keeps}

-- Every quantum is still there, with its bytes.
pub record Kept (xs ys : List Qset) : Type 0 where
  pub kept : (r : Place) (b : List ℕ) → slot r xs ≡ filled b → slot r ys ≡ filled b

pub Kept-refl : (xs : List Qset) → Kept xs xs
Kept-refl xs = record { kept = λ r b e. e }

pub Kept-trans : {xs ys zs : List Qset} → Kept xs ys → Kept ys zs → Kept xs zs
Kept-trans f g = record { kept = λ r b e. g.kept r b (f.kept r b e) }

pub scull_follow-Kept :
    (k : ℕ) (mem : List Bool) (xs : List Qset) → Kept xs (scull_follow k mem xs).items
unfolding slot
scull_follow-Kept k mem xs = record {
  kept = λ r b e. elim (Option-cases (get_elem? xs r.item)) [
    | inl h ↦ absurd (cc (sym e ∙ ap (in_array r.s_pos) h))
    | inr h ↦ ap (in_array r.s_pos) (scull_follow-keeps k mem xs r.item h.0 h.1 ∙ sym h.1) ∙ e
  ];
}

-- An array that was not there is put in.
pub array-Kept :
    (n i : ℕ) (xs : List Qset)
    → get_elem? xs i ≡ some none
    → Kept xs (set xs i (some (replicate n none)))
unfolding slot
array-Kept n i xs h = record {
  kept = λ r b e. elim (ℕ_discrete i r.item) [
    | yes same ↦ absurd (cc (sym e ∙ ap (in_array r.s_pos) (ap (get_elem? xs) (sym same) ∙ h)))
    | no other ↦
        ap (in_array r.s_pos) (get_elem?-set_other xs i r.item (some (replicate n none)) other) ∙ e
  ];
}

-- A quantum that was not there is put in.
pub quantum-Kept :
    (p : Place) (fresh : List ℕ) (xs : List Qset) (a : List Quantum)
    → get_elem? xs p.item ≡ some (some a)
    → slot p xs ≡ hole
    → Kept xs (put_slot p fresh xs)
unfolding slot
quantum-Kept p fresh xs a g h = record {
  kept = λ r b e. elim (ℕ_discrete p.item r.item) [
    | no other ↦ slot-put_slot_other p fresh xs a r g (inl other) ∙ e
    | yes same ↦ elim (ℕ_discrete p.s_pos r.s_pos) [
      | no other ↦ slot-put_slot_other p fresh xs a r g (inr other) ∙ e
      | yes same' ↦
          let back : slot r xs ≡ hole =
            ap₂ (λ i j. in_array j (get_elem? xs i)) (sym same) (sym same') ∙ h in
          absurd (cc (sym e ∙ back))
    ]
  ];
}
