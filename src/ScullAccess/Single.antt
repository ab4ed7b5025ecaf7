-- ===== src/ScullAccess/Single.antt =====
-- scullsingle of LinuxDeviceDrivers3Ed/scull/access.c under every interleaving of its processes:
-- the atomic operations of `scull_s_open` and `scull_s_release` are the steps.
use leipocode.Base.{
  ℕ, zero, suc, ◌+◌, ◌-◌, ◌%◌, ◌^◌, ◌≤◌, ◌<◌, ◌≡◌, refl, List, [], ◌∷◌, ◌++◌, arith, ◌==◌, length,
  length-append, length-replicate, replicate, inl, inr, Bool-cases, ==→eq,
}
use leipocode.Kernel.{inc, dec}
use leipocode.ScullAccess.{Proc, outside, backing_out, holding, scull_s_try, scull_s_release}

pub record State : Type 0 where
  pub available : ℕ
  pub procs : List Proc

abbrev pub state : ℕ → List Proc → State
state a ps = record { available = a; procs = ps }

-- A step of one process, between those in front of it and behind it in the list.
pub data Step : State → State → Type 0 where
  tries :
      (a : ℕ) (ys zs : List Proc)
      → Step (state a (ys ++ outside ∷ zs)) (state (scull_s_try a).1 (ys ++ (scull_s_try a).0 ∷ zs))
  backs_out :
      (a : ℕ) (ys zs : List Proc)
      → Step (state a (ys ++ backing_out ∷ zs)) (state (scull_s_release a) (ys ++ outside ∷ zs))
  closes :
      (a : ℕ) (ys zs : List Proc)
      → Step (state a (ys ++ holding ∷ zs)) (state (scull_s_release a) (ys ++ outside ∷ zs))

pub data Steps : State → State → Type 0 where
  stay : (s : State) → Steps s s
  go : {s t u : State} → Step s t → Steps t u → Steps s u

-- How many processes have the device open, and how many have taken the counter down.
abbrev holds : Proc → ℕ
holds outside = 0
holds backing_out = 0
holds holding = 1

abbrev counts : Proc → ℕ
counts outside = 0
counts backing_out = 1
counts holding = 1

abbrev pub total : (Proc → ℕ) → List Proc → ℕ
total f [] = 0
total f (x ∷ xs) = f x + total f xs

abbrev pub holders : List Proc → ℕ
holders = total holds

abbrev pub taken : List Proc → ℕ
taken = total counts

total-append : (f : Proc → ℕ) (xs ys : List Proc) → total f (xs ++ ys) ≡ total f xs + total f ys
total-append f [] ys = omega arith
total-append f (x ∷ xs) ys = omega (arith, total-append f xs ys)

taken-le : (xs : List Proc) → taken xs ≤ length xs
taken-le [] = omega arith
taken-le (outside ∷ xs) = omega (arith, taken-le xs)
taken-le (backing_out ∷ xs) = omega (arith, taken-le xs)
taken-le (holding ∷ xs) = omega (arith, taken-le xs)

-- The counter is 1 less what was taken, one process at most holds the device.
record Counted (s : State) : Type 0 where
  pub few : length s.procs < 2 ^ 31
  pub counter : s.available ≡ (2 ^ 32 + 1 - taken s.procs) % 2 ^ 32
  pub one : holders s.procs ≤ 1

holders-le : (xs : List Proc) → holders xs ≤ taken xs
holders-le [] = omega arith
holders-le (outside ∷ xs) = omega (arith, holders-le xs)
holders-le (backing_out ∷ xs) = omega (arith, holders-le xs)
holders-le (holding ∷ xs) = omega (arith, holders-le xs)

-- One process changes, and the counter with it.
Counted-moved :
    {a : ℕ} (b : ℕ) (ys zs : List Proc) (p q : Proc)
    → Counted (state a (ys ++ p ∷ zs))
    → let k = taken ys + taken zs in
      let h = holders ys + holders zs in
      (h + holds p ≤ 1
        → a ≡ (2 ^ 32 + 1 - (k + counts p)) % 2 ^ 32
        → (b ≡ (2 ^ 32 + 1 - (k + counts q)) % 2 ^ 32) × (h + holds q ≤ 1))
      → Counted (state b (ys ++ q ∷ zs))
Counted-moved b ys zs p q c step =
    let (next, one) =
      step (omega (arith, c.one, total-append holds ys (p ∷ zs)))
        (omega (arith, c.counter, total-append counts ys (p ∷ zs))) in
    record {
      few = omega (arith, c.few, length-append ys (p ∷ zs), length-append ys (q ∷ zs));
      counter = omega (arith, next, total-append counts ys (q ∷ zs));
      one = omega (arith, one, total-append holds ys (q ∷ zs));
    }

small :
    {a : ℕ} (ys zs : List Proc) (p : Proc)
    → Counted (state a (ys ++ p ∷ zs))
    → taken ys + taken zs + 1 < 2 ^ 31
small ys zs p c = omega (arith, c.few, length-append ys (p ∷ zs), taken-le ys, taken-le zs)

Step-Counted : {s t : State} → Step s t → Counted s → Counted t
unfolding scull_s_try scull_s_release
Step-Counted (tries a ys zs) c =
    let few = small ys zs outside c in
    elim (Bool-cases (dec a == 0)) [
      | inl e ↦
          let zero_now : dec a ≡ 0 = ==→eq (dec a) 0 e in
          rw e (
            Counted-moved (dec a) ys zs outside holding c
              (λ one eq. (omega arith, omega (arith, holders-le ys, holders-le zs))))
      | inr e ↦
          rw e (
            Counted-moved (dec a) ys zs outside backing_out c
              (λ one eq. (omega arith, omega arith)))
    ]
Step-Counted (backs_out a ys zs) c =
    let few = small ys zs backing_out c in
    Counted-moved (inc a) ys zs backing_out outside c (λ one eq. (omega arith, omega arith))
Step-Counted (closes a ys zs) c =
    let few = small ys zs holding c in
    Counted-moved (inc a) ys zs holding outside c (λ one eq. (omega arith, omega arith))

steps-Counted : {s t : State} → Steps s t → Counted s → Counted t
steps-Counted (stay s) c = c
steps-Counted (go step rest) c = steps-Counted rest (Step-Counted step c)

abbrev pub nobody : ℕ → List Proc
nobody n = replicate n outside

nobody-total : (n : ℕ) → (holders (nobody n) ≡ 0) × (taken (nobody n) ≡ 0)
nobody-total zero = (refl, refl)
nobody-total (suc n) = omega (arith, nobody-total n)

-- From the counter 1 and fewer than 2 ^ 31 processes that have not opened the device, whatever the
-- interleaving of their atomic operations: at most one process has the device open, and the counter is
-- 1, less one for each process that has the device open or still has to take its count back.
pub at_most_one_holder :
    (n : ℕ) {t : State}
    → n < 2 ^ 31
    → Steps (state 1 (nobody n)) t
    → (holders t.procs ≤ 1) × (t.available ≡ (2 ^ 32 + 1 - taken t.procs) % 2 ^ 32)
at_most_one_holder n few run =
    let (h, k) = nobody-total n in
    let c = steps-Counted run (record {
      few = omega (arith, length-replicate n outside);
      counter = omega (arith, k);
      one = omega (arith, h);
    }) in
    (c.one, c.counter)
