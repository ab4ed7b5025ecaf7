-- ===== src/Loading/Balance.antt =====
-- The books of a driver of LinuxDeviceDrivers3Ed: what it holds after it has taken and given back
-- resources.
use leipocode.Base.{
  ℕ, zero, suc, ◌≤◌, ◌≡◌, refl, ap, ◌∙◌, inl, inr, Bool-cases, Option-cases, not, Bool, true, false,
  ◌&&◌, Option, none, some, List, [], ◌∷◌, ◌++◌, ◌==◌, if◌then◌else◌, arith, eq→==, ne→==,
}
use mathlib.Core.Bool.{false≢true}
use mathlib.Core.Option.{some-injective, none-ne-some}
use leipocode.Loading.{
  Owner, own, pipes, access, Resource, region, memory, cdev, device, driver, cache, Action, takes,
  gives, each_dev,
}

abbrev pub same_owner : Owner → Owner → Bool
same_owner own own = true
same_owner pipes pipes = true
same_owner access access = true
same_owner o p = false

abbrev pub same : Resource → Resource → Bool
same (region a b) (region c d) = (a == c) && (b == d)
same (memory o) (memory p) = same_owner o p
same (cdev o i) (cdev p j) = same_owner o p && (i == j)
same (device o i) (device p j) = same_owner o p && (i == j)
same driver driver = true
same cache cache = true
same r s = false

abbrev onto : Resource → Option (List Resource) → Option (List Resource)
onto r none = none
onto r (some held) = some (r ∷ held)

abbrev pub without : Resource → List Resource → Option (List Resource)
without r [] = none
without r (s ∷ held) = if same r s then some held else onto s (without r held)

abbrev and_then :
    Option (List Resource) → (List Resource → Option (List Resource)) → Option (List Resource)
and_then none f = none
and_then (some held) f = f held

-- What is held afterwards; `none` when something is given back that is not held.
abbrev pub after : List Action → List Resource → Option (List Resource)
after [] held = some held
after (takes r ∷ actions) held = after actions (r ∷ held)
after (gives r ∷ actions) held = and_then (without r held) (after actions)

pub after-append :
    (xs bs : List Action) (held rest : List Resource)
    → after xs held ≡ some rest
    → after (xs ++ bs) held ≡ after bs rest
after-append [] bs held rest e = ap (after bs) (some-injective _ _ e)
after-append (takes r ∷ xs) bs held rest e = after-append xs bs (r ∷ held) rest e
after-append (gives r ∷ xs) bs held rest e = elim (Option-cases (without r held)) [
  | inl n ↦ absurd (none-ne-some _ (rw n at e))
  | inr (h, k) ↦ rw k (after-append xs bs h rest (rw k at e))
]

-- Only other resources are given back.
abbrev pub spares : Resource → List Action → Bool
spares x [] = true
spares x (takes r ∷ xs) = false
spares x (gives r ∷ xs) = not (same r x) && spares x xs

-- What is spared stays on top of what else is held.
pub after-spares :
    (x : Resource) (xs : List Action) (held rest : List Resource)
    → spares x xs ≡ true
    → after xs held ≡ some rest
    → after xs (x ∷ held) ≡ some (x ∷ rest)
after-spares x [] held rest h e = ap (λ l. some (x ∷ l)) (some-injective _ _ e)
after-spares x (takes r ∷ xs) held rest h e = absurd (false≢true h)
after-spares x (gives r ∷ xs) held rest h e = elim (Bool-cases (same r x)) [
  | inl s ↦ absurd (false≢true (rw s at h))
  | inr s ↦ elim (Option-cases (without r held)) [
    | inl n ↦ absurd (none-ne-some _ (rw n at e))
    | inr (l, k) ↦ rw (s, k) (after-spares x xs l rest (rw s at h) (rw k at e))
  ]
]

pub spares-append :
    (x : Resource) (xs bs : List Action)
    → spares x xs ≡ true
    → spares x bs ≡ true
    → spares x (xs ++ bs) ≡ true
spares-append x [] bs h k = k
spares-append x (takes r ∷ xs) bs h k = absurd (false≢true h)
spares-append x (gives r ∷ xs) bs h k = elim (Bool-cases (same r x)) [
  | inl s ↦ absurd (false≢true (rw s at h))
  | inr s ↦ rw s (spares-append x xs bs (rw s at h) k)
]

same_owner_self : (o : Owner) → same_owner o o ≡ true
same_owner_self own = refl
same_owner_self pipes = refl
same_owner_self access = refl

same_self : (r : Resource) → same r r ≡ true
same_self (region a b) = rw (eq→== a a refl, eq→== b b refl) refl
same_self (memory o) = same_owner_self o
same_self (cdev o i) = rw (same_owner_self o, eq→== i i refl) refl
same_self (device o i) = rw (same_owner_self o, eq→== i i refl) refl
same_self driver = refl
same_self cache = refl

pub gives_top :
    (r : Resource) (actions : List Action) (held : List Resource)
    → after (gives r ∷ actions) (r ∷ held) ≡ after actions held
gives_top r actions held = rw (same_self r) refl

-- The character devices of an owner, the last one first.
abbrev pub cdevs : Owner → (devs : ℕ) → List Resource → List Resource
cdevs o zero held = held
cdevs o (suc n) held = cdev o n ∷ cdevs o n held

pub each_dev-cdevs :
    (o : Owner) (devs : ℕ) (held : List Resource)
    → after (each_dev (λ i. takes (cdev o i) ∷ []) devs) held ≡ some (cdevs o devs held)
each_dev-cdevs o zero held = refl
each_dev-cdevs o (suc n) held =
    after-append (each_dev (λ i. takes (cdev o i) ∷ []) n) (takes (cdev o n) ∷ []) held _
      (each_dev-cdevs o n held)

pub other_cdevs :
    (o : Owner) (n m : ℕ)
    → m ≤ n
    → spares (cdev o n) (each_dev (λ i. gives (cdev o i) ∷ []) m) ≡ true
other_cdevs o n zero h = refl
other_cdevs o n (suc m) h =
    spares-append (cdev o n) (each_dev (λ i. gives (cdev o i) ∷ []) m) (gives (cdev o m) ∷ [])
      (other_cdevs o n m (omega arith))
      (rw (same_owner_self o, ne→== m n (λ e. omega (arith, e))) refl)

pub cdevs-given_back :
    (o : Owner) (devs : ℕ) (held : List Resource)
    → after (each_dev (λ i. gives (cdev o i) ∷ []) devs) (cdevs o devs held) ≡ some held
cdevs-given_back o zero held = refl
cdevs-given_back o (suc n) held =
    after-append (each_dev (λ i. gives (cdev o i) ∷ []) n) (gives (cdev o n) ∷ [])
      (cdevs o (suc n) held) (cdev o n ∷ held)
      (after-spares (cdev o n) (each_dev (λ i. gives (cdev o i) ∷ []) n) (cdevs o n held) held
        (other_cdevs o n n (omega arith)) (cdevs-given_back o n held))
    ∙ gives_top (cdev o n) [] held

abbrev pub all_spared : List Resource → List Action → Bool
all_spared [] actions = true
all_spared (x ∷ xs) actions = spares x actions && all_spared xs actions

pub after-all_spared :
    (xs : List Resource) (actions : List Action) (held rest : List Resource)
    → all_spared xs actions ≡ true
    → after actions held ≡ some rest
    → after actions (xs ++ held) ≡ some (xs ++ rest)
after-all_spared [] actions held rest h e = e
after-all_spared (x ∷ xs) actions held rest h e = elim (Bool-cases (spares x actions)) [
  | inl s ↦
      after-spares x actions (xs ++ held) (xs ++ rest) s
        (after-all_spared xs actions held rest (rw s at h) e)
  | inr s ↦ absurd (false≢true (rw s at h))
]

-- The character devices of an owner are spared when each of them is.
pub cdevs-all_spared :
    (o : Owner) (devs : ℕ) (held : List Resource) (actions : List Action)
    → ((i : ℕ) → spares (cdev o i) actions ≡ true)
    → all_spared held actions ≡ true
    → all_spared (cdevs o devs held) actions ≡ true
cdevs-all_spared o zero held actions each h = h
cdevs-all_spared o (suc n) held actions each h =
    rw (each n) (cdevs-all_spared o n held actions each h)

pub cdevs-append :
    (o : Owner) (devs : ℕ) (held rest : List Resource)
    → cdevs o devs (held ++ rest) ≡ cdevs o devs held ++ rest
cdevs-append o zero held rest = refl
cdevs-append o (suc n) held rest = ap (λ l. cdev o n ∷ l) (cdevs-append o n held rest)

-- Giving back the devices of an owner spares what is none of them.
pub foreign :
    (o : Owner) (x : Resource) (devs : ℕ)
    → ((i : ℕ) → same (cdev o i) x ≡ false)
    → spares x (each_dev (λ i. gives (cdev o i) ∷ []) devs) ≡ true
foreign o x zero differ = refl
foreign o x (suc n) differ =
    spares-append x (each_dev (λ i. gives (cdev o i) ∷ []) n) (gives (cdev o n) ∷ [])
      (foreign o x n differ) (rw (differ n) refl)
