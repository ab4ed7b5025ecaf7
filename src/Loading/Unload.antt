-- ===== src/Loading/Unload.antt =====
-- scull of LinuxDeviceDrivers3Ed as a whole: a load and an unload, and the loads that fail.
use leipocode.Base.{
  ℕ, ◌+◌, ◌≡◌, ◌≢◌, ◌<◌, refl, ap, ◌∙◌, false, none, some, List, [], ◌∷◌, ◌++◌, arith,
}
use leipocode.Kernel.{returns, fails, enomem}
use leipocode.Loading.{
  own, pipes, access, Resource, region, memory, cdev, Action, takes, gives, each_dev, mkdev,
  major_of,
}
use leipocode.Loading.Scull.{
  ScullLoad, own_numbers, scull_p_init, scull_p_setup_cdev, scull_p_cleanup, scull_access_setup,
  scull_access_init, scull_access_cleanup, friends, scull_setup_cdev, scull_init_module,
  scull_cleanup_module, n_adevs,
}
use leipocode.Loading.Balance.{after, after-append, gives_top, cdevs, each_dev-cdevs, cdevs-append}
use leipocode.Loading.Friends.{
  smooth, gone, of_pipes, of_access, regions_differ, own_first, numbers_next, pipes_next,
}

-- What a load takes when the kernel refuses nothing, behind the memory for the devices, and what the
-- unload gives back.
abbrev taken_by : (devs nr : ℕ) (p a : Resource) → List Action
taken_by devs nr p a =
    each_dev (λ i. takes (cdev own i) ∷ []) devs
    ++ ((takes p ∷ takes (memory pipes) ∷ each_dev (λ i. takes (cdev pipes i) ∷ []) nr)
        ++ (takes a ∷ each_dev (λ i. takes (cdev access i) ∷ []) n_adevs))

abbrev given_back : (devs nr : ℕ) (r p a : Resource) → List Action
given_back devs nr r p a =
    (gone own devs ++ gives (memory own) ∷ [])
    ++ (gives r
        ∷ ((gone pipes nr ++ gives (memory pipes) ∷ gives p ∷ [])
            ++ (gone access n_adevs ++ gives a ∷ [])))

taken_by-held :
    (devs nr : ℕ) (r p a : Resource)
    → after (taken_by devs nr p a) (memory own ∷ r ∷ [])
      ≡ some (of_access a ++ (of_pipes nr p ++ cdevs own devs (memory own ∷ r ∷ [])))
taken_by-held devs nr r p a =
    let held = memory own ∷ r ∷ [] in
    let full = cdevs own devs held in
    let adds = takes a ∷ each_dev (λ i. takes (cdev access i) ∷ []) n_adevs in
    let piped = each_dev (λ i. takes (cdev pipes i) ∷ []) nr in
    after-append (each_dev (λ i. takes (cdev own i) ∷ []) devs)
      ((takes p ∷ takes (memory pipes) ∷ piped) ++ adds) held full (each_dev-cdevs own devs held)
    ∙ after-append piped adds (memory pipes ∷ p ∷ full) (cdevs pipes nr (memory pipes ∷ p ∷ full))
        (each_dev-cdevs pipes nr (memory pipes ∷ p ∷ full))
    ∙ ap (λ h. some (of_access a ++ h)) (cdevs-append pipes nr (memory pipes ∷ p ∷ []) full)

given_back-nothing :
    (devs nr : ℕ) (m n k c d e : ℕ)
    → m ≢ n
    → m ≢ k
    → n ≢ k
    → after (given_back devs nr (region m c) (region n d) (region k e)) (
        of_access (region k e)
        ++ (of_pipes nr (region n d) ++ cdevs own devs (memory own ∷ region m c ∷ [])))
      ≡ some []
given_back-nothing devs nr m n k c d e mn mk nk =
    let r = region m c in
    let p = region n d in
    let a = region k e in
    let last = gone access n_adevs ++ gives a ∷ [] in
    let of_friends = gone pipes nr ++ gives (memory pipes) ∷ gives p ∷ [] in
    after-append (gone own devs ++ gives (memory own) ∷ []) (gives r ∷ (of_friends ++ last)) _ _
      (own_first devs r p a nr (λ i. refl) (λ i. refl) refl refl)
    ∙ after-append (gives r ∷ []) (of_friends ++ last) (of_access a ++ (of_pipes nr p ++ r ∷ []))
        (of_access a ++ of_pipes nr p)
        (numbers_next r p a nr (regions_differ m c n d mn) (regions_differ m c k e mk) (λ i. refl)
          (λ i. refl) refl)
    ∙ after-append of_friends last (of_access a ++ of_pipes nr p) (of_access a)
        (pipes_next p a nr (regions_differ n d k e nk) (λ i. refl) refl (λ i. refl))
    ∙ gives_top a [] []

-- A load in which the kernel refuses nothing, with at least one device and one pipe: after it and the
-- unload nothing is left, and nothing is given back that is not held.
pub scull_unloads :
    (major dynamic minor devs nr_pipes : ℕ)
    → 0 < devs
    → 0 < nr_pipes
    → let l = smooth major dynamic minor devs nr_pipes in
      let (ret, actions, statics) = scull_init_module l in
      (ret ≡ returns 0) × (after (actions ++ scull_cleanup_module l statics) [] ≡ some [])
unfolding scull_init_module scull_cleanup_module friends scull_p_init scull_p_cleanup
    scull_access_init scull_access_cleanup scull_access_setup scull_p_setup_cdev scull_setup_cdev
scull_unloads major dynamic minor devs nr_pipes some_devs some_pipes =
    let l = smooth major dynamic minor devs nr_pipes in
    let dev = mkdev (major_of l.main) (minor + devs) in
    let r = own_numbers l in
    let p = region dev nr_pipes in
    let a = region (dev + nr_pipes) n_adevs in
    (
      refl,
      after-append (taken_by devs nr_pipes p a) (given_back devs nr_pipes r p a)
            (memory own ∷ r ∷ []) _ (taken_by-held devs nr_pipes r p a)
          ∙ given_back-nothing devs nr_pipes _ _ _ _ _ _ (λ e. omega (arith, e, some_devs))
              (λ e. omega (arith, e, some_devs)) (λ e. omega (arith, e, some_pipes)),
    )

-- When the numbers are registered and there is no memory for the devices, the load fails with ENOMEM
-- and gives back what it does not hold: those of the devices with access control, which it has not set
-- up.
pub no_memory_for_devices :
    (l : ScullLoad)
    → l.main.refused ≡ none
    → l.main.allocated ≡ false
    → ((scull_init_module l).0 ≡ fails enomem) × (after (scull_init_module l).1 [] ≡ none)
unfolding scull_init_module scull_cleanup_module scull_p_cleanup scull_access_cleanup
no_memory_for_devices l registered none_left =
    rw (registered, none_left)
      (refl, gives_top (own_numbers l) (gone access n_adevs ++ gives (region 0 n_adevs) ∷ []) [])
