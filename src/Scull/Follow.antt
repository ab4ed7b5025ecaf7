-- ===== src/Scull/Follow.antt =====
-- What `scull_follow` of LinuxDeviceDrivers3Ed/scull/main.c makes of the list.
use leipocode.Base.{
  ℕ, zero, suc, ◌+◌, ◌≤◌, ◌<◌, ◌≡◌, refl, ap, Bool, true, false, some, List, [], ◌∷◌, arith, length,
  get_elem?, replicate,
}
use leipocode.Scull.{Qset, behind, scull_follow}
use leipocode.Scull.Valid.{Shaped}

pub scull_follow-Shaped :
    (q n k : ℕ) (mem : List Bool) (xs : List Qset)
    → Shaped q n xs
    → Shaped q n (scull_follow k mem xs).items
unfolding scull_follow
scull_follow-Shaped q n k [] [] s = tt
scull_follow-Shaped q n k (false ∷ mem) [] s = tt
scull_follow-Shaped q n zero (true ∷ mem) [] s = (tt, tt)
scull_follow-Shaped q n (suc k) (true ∷ mem) [] s = (tt, scull_follow-Shaped q n k mem [] tt)
scull_follow-Shaped q n zero mem (x ∷ xs) s = s
scull_follow-Shaped q n (suc k) mem (x ∷ xs) s = (s.0, scull_follow-Shaped q n k mem xs s.1)

-- Where the item is reached, it is there.
pub scull_follow-found :
    (k : ℕ) (mem : List Bool) (xs : List Qset)
    → (scull_follow k mem xs).found ≡ true
    → k < length (scull_follow k mem xs).items
unfolding scull_follow
scull_follow-found k [] [] e = absurd (cc e)
scull_follow-found k (false ∷ mem) [] e = absurd (cc e)
scull_follow-found zero (true ∷ mem) [] e = omega arith
scull_follow-found (suc k) (true ∷ mem) [] e = omega (arith, scull_follow-found k mem [] e)
scull_follow-found zero mem (x ∷ xs) e = omega arith
scull_follow-found (suc k) mem (x ∷ xs) e = omega (arith, scull_follow-found k mem xs e)

-- The items that were there stay where they are.
pub scull_follow-keeps :
    (k : ℕ) (mem : List Bool) (xs : List Qset) (i : ℕ) (x : Qset)
    → get_elem? xs i ≡ some x
    → get_elem? (scull_follow k mem xs).items i ≡ some x
unfolding scull_follow
scull_follow-keeps k mem [] i x e = absurd (cc e)
scull_follow-keeps zero mem (y ∷ xs) i x e = e
scull_follow-keeps (suc k) mem (y ∷ xs) zero x e = e
scull_follow-keeps (suc k) mem (y ∷ xs) (suc i) x e = scull_follow-keeps k mem xs i x e

-- An item that is there is reached, and nothing is allocated.
pub scull_follow-there :
    (k : ℕ) (mem : List Bool) (xs : List Qset)
    → k < length xs
    → scull_follow k mem xs ≡ record { items = xs; mem = mem; found = true }
unfolding scull_follow
scull_follow-there k mem [] h = absurd (omega arith)
scull_follow-there zero mem (x ∷ xs) h = refl
scull_follow-there (suc k) mem (x ∷ xs) h =
    ap (behind x) (scull_follow-there k mem xs (omega arith))

-- With memory for each item it is reached, and the rest of the memory is left.
pub scull_follow-enough :
    (k m : ℕ) (xs : List Qset)
    → k < m
    → let r = scull_follow k (replicate m true) xs in
      (r.found ≡ true) × (m' : ℕ) × (r.mem ≡ replicate m' true) × (m ≤ m' + k + 1)
unfolding scull_follow
scull_follow-enough k zero xs h = absurd (omega arith)
scull_follow-enough zero (suc m) [] h = (refl, m, refl, omega arith)
scull_follow-enough (suc k) (suc m) [] h =
    let (found, m', left, most) = scull_follow-enough k m [] (omega arith) in
    (found, m', left, omega arith)
scull_follow-enough zero (suc m) (x ∷ xs) h = (refl, suc m, refl, omega arith)
scull_follow-enough (suc k) (suc m) (x ∷ xs) h =
    let (found, m', left, most) = scull_follow-enough k (suc m) xs (omega arith) in
    (found, m', left, omega arith)
