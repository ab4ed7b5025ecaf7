-- ===== src/Scull/Enough.antt =====
-- When the memory is enough for `scull_write` of LinuxDeviceDrivers3Ed/scull/main.c.
use leipocode.Base.{
  ℕ, zero, suc, ◌+◌, ◌≤◌, ◌<◌, ◌≡◌, refl, inl, inr, true, none, some, List, arith, get_elem?,
  replicate, Option-cases,
}
use leipocode.Scull.{
  Qset, Followed, Place, Slot, hole, filled, outside, slot, scull_follow, with_array, with_quantum,
}
use leipocode.Scull.Follow.{scull_follow-enough}

-- With memory left, each allocation succeeds, and takes at most one answer.
with_array-enough :
    (n m : ℕ) (p : Place) (r : Followed)
    → r.found ≡ true
    → r.mem ≡ replicate (suc m) true
    → ((with_array n p r).found ≡ true)
      × (m' : ℕ) × ((with_array n p r).mem ≡ replicate m' true)
      × (m ≤ m')
unfolding with_array
with_array-enough n m p r f l = elim (Option-cases (get_elem? r.items p.item)) [
  | inl e ↦ rw (with_array, e) (f, suc m, l, omega arith)
  | inr (none, e) ↦ rw (with_array, e, f, l) (refl, m, refl, omega arith)
  | inr (some a, e) ↦ rw (with_array, e) (f, suc m, l, omega arith)
]

with_quantum-enough :
    (m : ℕ) (p : Place) (fresh : List ℕ) (r : Followed)
    → r.found ≡ true
    → r.mem ≡ replicate (suc m) true
    → (with_quantum p fresh r).found ≡ true
unfolding with_quantum
with_quantum-enough m p fresh r f e = go (slot p r.items) refl
  where
    go : (s : Slot) → slot p r.items ≡ s → (with_quantum p fresh r).found ≡ true
    go hole h = rw (with_quantum, h, f, e) refl
    go (filled b) h = rw (with_quantum, h) f
    go outside h = rw (with_quantum, h) f

both_enough :
    (n m : ℕ) (p : Place) (fresh : List ℕ) (r : Followed)
    → 1 < m
    → r.found ≡ true
    → r.mem ≡ replicate m true
    → (with_quantum p fresh (with_array n p r)).found ≡ true
both_enough n zero p fresh r h f l = absurd (omega arith)
both_enough n (suc zero) p fresh r h f l = absurd (omega arith)
both_enough n (suc (suc m)) p fresh r h f l =
    let (f', m', l', most) = with_array-enough n (suc m) p r f l in quantum n m' f' l' (omega arith)
  where
    quantum :
        (n m' : ℕ)
        → (with_array n p r).found ≡ true
        → (with_array n p r).mem ≡ replicate m' true
        → 0 < m'
        → (with_quantum p fresh (with_array n p r)).found ≡ true
    quantum n zero f' l' most = absurd (omega arith)
    quantum n (suc m') f' l' most = with_quantum-enough m' p fresh (with_array n p r) f' l'

-- Memory for the items up to the one of the position, for an array and for a quantum is enough.
pub allocations-enough :
    (n m : ℕ) (p : Place) (fresh : List ℕ) (xs : List Qset)
    → p.item + 2 < m
    → (with_quantum p fresh (with_array n p (scull_follow p.item (replicate m true) xs))).found
      ≡ true
allocations-enough n m p fresh xs h =
    let r = scull_follow p.item (replicate m true) xs in
    let (found, m₁, left, most) = scull_follow-enough p.item m xs (omega arith) in
    both_enough n m₁ p fresh r (omega arith) found left
