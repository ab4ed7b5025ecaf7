-- ===== src/Scull/Valid.antt =====
-- When a device of LinuxDeviceDrivers3Ed/scull/main.c is well formed: its arrays have `qset`
-- entries and its quanta `quantum` bytes.
use leipocode.Base.{
  ℕ, zero, suc, ◌*◌, ◌^◌, ◌<◌, ◌≡◌, subst, none, some, List, [], ◌∷◌, arith, length, get_elem?, set,
  replicate,
}
use mathlib.Core.Option.{some-injective}
use leipocode.Scull.{Quantum, Qset, ScullDev, Slot, hole, filled, outside, entry}

abbrev pub Quanta : ℕ → List Quantum → Type 0
Quanta q [] = Unit {0}
Quanta q (none ∷ a) = Quanta q a
Quanta q (some b ∷ a) = (length b ≡ q) × Quanta q a

abbrev pub ItemShaped : (quantum qset : ℕ) → Qset → Type 0
ItemShaped q n none = Unit {0}
ItemShaped q n (some a) = (length a ≡ n) × Quanta q a

abbrev pub Shaped : (quantum qset : ℕ) → List Qset → Type 0
Shaped q n [] = Unit {0}
Shaped q n (x ∷ xs) = ItemShaped q n x × Shaped q n xs

pub record IsValid (d : ScullDev) : Type 0 where
  pub some_bytes : 0 < d.quantum * d.qset
  pub in_range : d.quantum * d.qset < 2 ^ 31
  pub shaped : Shaped d.quantum d.qset d.items

-- What a slot holds has the size of a quantum, and is no place outside the array.
abbrev pub Fits : ℕ → Slot → Type 0
Fits q hole = Unit {0}
Fits q (filled b) = length b ≡ q
Fits q outside = ⊥

pub Quanta-replicate : (q n : ℕ) → Quanta q (replicate n none)
Quanta-replicate q zero = tt
Quanta-replicate q (suc n) = Quanta-replicate q n

pub Quanta-set :
    {q : ℕ} (a : List Quantum) (i : ℕ) (b : List ℕ)
    → length b ≡ q
    → Quanta q a
    → Quanta q (set a i (some b))
Quanta-set [] i b h s = tt
Quanta-set (none ∷ a) zero b h s = (h, s)
Quanta-set (some c ∷ a) zero b h s = (h, s.1)
Quanta-set (none ∷ a) (suc i) b h s = Quanta-set a i b h s
Quanta-set (some c ∷ a) (suc i) b h s = (s.0, Quanta-set a i b h s.1)

pub Quanta-get_elem? :
    (q : ℕ) (a : List Quantum) (i : ℕ) → i < length a → Quanta q a → Fits q (entry (get_elem? a i))
Quanta-get_elem? q [] i h s = absurd (omega arith)
Quanta-get_elem? q (none ∷ a) zero h s = tt
Quanta-get_elem? q (some b ∷ a) zero h s = s.0
Quanta-get_elem? q (none ∷ a) (suc i) h s = Quanta-get_elem? q a i (omega arith) s
Quanta-get_elem? q (some b ∷ a) (suc i) h s = Quanta-get_elem? q a i (omega arith) s.1

pub Shaped-set :
    (q n : ℕ) (xs : List Qset) (i : ℕ) (x : Qset)
    → ItemShaped q n x
    → Shaped q n xs
    → Shaped q n (set xs i x)
Shaped-set q n [] i x h s = tt
Shaped-set q n (y ∷ xs) zero x h s = (h, s.1)
Shaped-set q n (y ∷ xs) (suc i) x h s = (s.0, Shaped-set q n xs i x h s.1)

pub Shaped-get_elem? :
    (q n : ℕ) (xs : List Qset) (i : ℕ) (x : Qset)
    → get_elem? xs i ≡ some x
    → Shaped q n xs
    → ItemShaped q n x
Shaped-get_elem? q n [] i x e s = absurd (cc e)
Shaped-get_elem? q n (y ∷ xs) zero x e s = subst (ItemShaped q n) (some-injective _ _ e) s.0
Shaped-get_elem? q n (y ∷ xs) (suc i) x e s = Shaped-get_elem? q n xs i x e s.1
