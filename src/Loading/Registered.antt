-- ===== src/Loading/Registered.antt =====
-- The devices of LinuxDeviceDrivers3Ed/sculld/main.c, set up, registered and taken down again.
use leipocode.Base.{
  ℕ, zero, suc, ◌≡◌, ◌≤◌, ne→==, arith, refl, ap, ap₂, ◌∙◌, true, none, some, List, [], ◌∷◌, ◌++◌,
}
use leipocode.Kernel.{returns}
use leipocode.Loading.{
  own, Resource, cdev, device, Action, takes, gives, each_dev, sculld_setup_cdev, unless_refused,
  Ldd, register_ldd_device, sculld_register_dev,
}
use leipocode.Loading.Balance.{after, after-append, after-spares, spares, spares-append, gives_top}

-- What is taken and given back in the middle.
pub in_between :
    (xs ys end : List Action) (held full : List Resource)
    → after xs held ≡ some full
    → after ys full ≡ some held
    → after (xs ++ (ys ++ end)) held ≡ after end held
in_between xs ys end held full e f =
    after-append xs (ys ++ end) held full e ∙ after-append ys end full held f

-- The devices of sculld, the last one first.
abbrev both : (devs : ℕ) → List Resource → List Resource
both zero held = held
both (suc n) held = device own n ∷ cdev own n ∷ both n held

abbrev takes_both : (devs : ℕ) → List Action
takes_both = each_dev (λ i. takes (cdev own i) ∷ takes (device own i) ∷ [])

abbrev pub gives_both : (devs : ℕ) → List Action
gives_both = each_dev (λ i. gives (device own i) ∷ gives (cdev own i) ∷ [])

takes_both_lem :
    (devs : ℕ) (held : List Resource) → after (takes_both devs) held ≡ some (both devs held)
takes_both_lem zero held = refl
takes_both_lem (suc n) held =
    after-append (takes_both n) (takes (cdev own n) ∷ takes (device own n) ∷ []) held _
      (takes_both_lem n held)

other_both :
    (n m : ℕ)
    → m ≤ n
    → (spares (cdev own n) (gives_both m) ≡ true) × (spares (device own n) (gives_both m) ≡ true)
other_both n zero h = (refl, refl)
other_both n (suc m) h =
    let (cdevs_spared, devices_spared) = other_both n m (omega arith) in
    let differ = ne→== m n (λ e. omega (arith, e)) in
    (
      spares-append (cdev own n) (gives_both m) (gives (device own m) ∷ gives (cdev own m) ∷ [])
          cdevs_spared (rw differ refl),
      spares-append (device own n) (gives_both m) (gives (device own m) ∷ gives (cdev own m) ∷ [])
          devices_spared (rw differ refl),
    )

gives_both_lem :
    (devs : ℕ) (held : List Resource) → after (gives_both devs) (both devs held) ≡ some held
gives_both_lem zero held = refl
gives_both_lem (suc n) held =
    let (cdevs_spared, devices_spared) = other_both n n (omega arith) in
    let rest = cdev own n ∷ held in
    after-append (gives_both n) (gives (device own n) ∷ gives (cdev own n) ∷ []) (both (suc n) held)
      (device own n ∷ rest)
      (after-spares (device own n) (gives_both n) (cdev own n ∷ both n held) rest devices_spared (
        after-spares (cdev own n) (gives_both n) (both n held) held cdevs_spared
          (gives_both_lem n held)))
    ∙ gives_top (device own n) (gives (cdev own n) ∷ []) rest
    ∙ gives_top (cdev own n) [] held

-- What each device takes when the kernel accepts it.
each_registered :
    (ldd : Ldd) (devs : ℕ)
    → ((i : ℕ) → ldd.device_register i ≡ none)
    → each_dev (λ i. sculld_setup_cdev i ++ sculld_register_dev ldd i) devs ≡ takes_both devs
unfolding sculld_setup_cdev sculld_register_dev register_ldd_device
each_registered ldd zero accepted = refl
each_registered ldd (suc n) accepted =
    ap₂ (λ xs ys. xs ++ ys) (each_registered ldd n accepted)
      (ap (λ a. takes (cdev own n) ∷ (unless_refused a (returns 0, takes (device own n) ∷ [])).1)
        (accepted n))

-- The devices of sculld are set up and taken down again, behind what is held.
pub both_in_between :
    (ldd : Ldd) (devs : ℕ) (end : List Action) (held : List Resource)
    → ((i : ℕ) → ldd.device_register i ≡ none)
    → after
        (each_dev (λ i. sculld_setup_cdev i ++ sculld_register_dev ldd i) devs
          ++ (gives_both devs ++ end))
        held
      ≡ after end held
unfolding sculld_setup_cdev sculld_register_dev
both_in_between ldd devs end held accepted =
    ap (λ setup. after (setup ++ (gives_both devs ++ end)) held) (each_registered ldd devs accepted)
    ∙ in_between (takes_both devs) (gives_both devs) end held (both devs held)
        (takes_both_lem devs held) (gives_both_lem devs held)
