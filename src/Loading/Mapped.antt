-- ===== src/Loading/Mapped.antt =====
-- scullc, scullp, sculld and scullv of LinuxDeviceDrivers3Ed, loaded and unloaded: what is left.
use leipocode.Base.{
  ℕ, zero, suc, ◌≡◌, refl, sym, subst, ap, ◌∙◌, Bool, true, false, ◌&&◌, not, Option, none, some,
  List, [], ◌∷◌, ◌++◌, append_assoc, if◌then◌else◌,
}
use leipocode.Kernel.{Errno, Ret, returns, fails}
use leipocode.Loading.Registered.{in_between, both_in_between}
use leipocode.Loading.{
  own, Resource, memory, cdev, driver, cache, Action, takes, gives, each_dev, Load, numbers,
  setup_cdev, scullc_setup_cdev, scullp_setup_cdev, scullv_setup_cdev, Ldd, register_ldd_driver,
  scullp_init, scullp_cleanup, scullv_init, scullv_cleanup, scullc_init, scullc_cleanup,
  sculld_init, sculld_cleanup,
}
use leipocode.Loading.Balance.{
  after, after-append, after-spares, spares, spares-append, gives_top, cdevs, each_dev-cdevs,
  cdevs-given_back,
}

-- What is held when a driver has been loaded and, if that succeeds, unloaded.
abbrev pub left : Ret × List Action → (cleanup : List Action) → Option (List Resource)
left (returns n, actions) cleanup = after (actions ++ cleanup) []
left (fails e, actions) cleanup = after actions []

abbrev pub is_none : Option Errno → Bool
is_none none = true
is_none (some e) = false

abbrev gone : (devs : ℕ) → List Action
gone = each_dev (λ i. gives (cdev own i) ∷ [])

scullp_lem :
    (l : Load) (refused : Option Errno) (allocated : Bool)
    → let m = record l { refused = refused; allocated = allocated } in
      left (scullp_init m) (scullp_cleanup m) ≡ some []
unfolding scullp_init scullp_cleanup scullp_setup_cdev
scullp_lem l (some e) allocated = refl
scullp_lem l none false = gives_top (numbers l) [] []
scullp_lem l none true =
    let held = memory own ∷ numbers l ∷ [] in
    in_between (each_dev setup_cdev l.devs) (gone l.devs)
      (gives (memory own) ∷ gives (numbers l) ∷ []) held (cdevs own l.devs held)
      (each_dev-cdevs own l.devs held) (cdevs-given_back own l.devs held)
    ∙ gives_top (numbers l) [] []

scullv_lem :
    (l : Load) (refused : Option Errno) (allocated : Bool)
    → let m = record l { refused = refused; allocated = allocated } in
      left (scullv_init m) (scullv_cleanup m) ≡ some []
unfolding scullp_init scullp_cleanup scullv_init scullv_cleanup scullp_setup_cdev scullv_setup_cdev
scullv_lem = scullp_lem

cache_spared : (devs : ℕ) → spares cache (gone devs) ≡ true
cache_spared zero = refl
cache_spared (suc n) = spares-append cache (gone n) (gives (cdev own n) ∷ []) (cache_spared n) refl

scullc_lem :
    (l : Load) (refused : Option Errno) (allocated cached : Bool)
    → let m = record l { refused = refused; allocated = allocated; cached = cached } in
      left (scullc_init m) (scullc_cleanup cached m) ≡ some []
unfolding scullc_init scullc_cleanup scullc_setup_cdev
scullc_lem l (some e) allocated cached = refl
scullc_lem l none false true = gives_top (numbers l) [] []
scullc_lem l none false false = gives_top (numbers l) [] []
scullc_lem l none true false =
    let held = memory own ∷ numbers l ∷ [] in
    in_between (each_dev setup_cdev l.devs) (gone l.devs)
      (gives (memory own) ∷ gives (numbers l) ∷ []) held (cdevs own l.devs held)
      (each_dev-cdevs own l.devs held) (cdevs-given_back own l.devs held)
    ∙ gives_top (numbers l) [] []
scullc_lem l none true true =
    let held = memory own ∷ numbers l ∷ [] in
    let setup = each_dev setup_cdev l.devs in
    let end = gives (memory own) ∷ gives cache ∷ gives (numbers l) ∷ [] in
    append_assoc_of setup (takes cache ∷ []) (gone l.devs ++ end) held
    ∙ after-append setup (takes cache ∷ (gone l.devs ++ end)) held (cdevs own l.devs held)
        (each_dev-cdevs own l.devs held)
    ∙ after-append (gone l.devs) end (cache ∷ cdevs own l.devs held) (cache ∷ held) (
        after-spares cache (gone l.devs) (cdevs own l.devs held) held (cache_spared l.devs)
          (cdevs-given_back own l.devs held))
    ∙ gives_top (numbers l) [] []
  where
    append_assoc_of :
        (xs ys zs : List Action) (held : List Resource)
        → after (xs ++ ys ++ zs) held ≡ after (xs ++ (ys ++ zs)) held
    append_assoc_of xs ys zs held = ap (λ as_one. after as_one held) (append_assoc xs ys zs)

-- scullp, scullv and scullc, whatever the parameters and the answers of the kernel: a load that fails
-- leaves nothing, and after a load that succeeds and the unload nothing is left; at no time anything
-- is given back that is not held.
pub nothing_left :
    (l : Load)
    → (left (scullp_init l) (scullp_cleanup l) ≡ some [])
      × (left (scullv_init l) (scullv_cleanup l) ≡ some [])
      × (left (scullc_init l) (scullc_cleanup l.cached l) ≡ some [])
nothing_left l = (
  scullp_lem l l.refused l.allocated,
  scullv_lem l l.refused l.allocated,
  scullc_lem l l.refused l.allocated l.cached,
)

sculld_lem :
    (file : Option Errno) (devices : ℕ → Option Errno) (l : Load) (refused : Option Errno)
    (allocated : Bool)
    → ((i : ℕ) → devices i ≡ none)
    → let m = record l { refused = refused; allocated = allocated } in
      let ldd : Ldd = record {
        driver_register = none;
        driver_create_file = file;
        device_register = devices;
      } in
      left (sculld_init ldd m) (sculld_cleanup m)
      ≡ some (if is_none refused && not allocated then driver ∷ [] else [])
unfolding sculld_init sculld_cleanup register_ldd_driver
sculld_lem file devices l (some e) allocated accepted = refl
sculld_lem file devices l none false accepted =
    after-spares driver (gives (numbers l) ∷ []) (numbers l ∷ []) [] refl
      (gives_top (numbers l) [] [])
sculld_lem file devices l none true accepted =
    let ldd : Ldd = record {
      driver_register = none;
      driver_create_file = file;
      device_register = devices;
    } in
    both_in_between ldd l.devs (gives (memory own) ∷ gives driver ∷ gives (numbers l) ∷ [])
      (memory own ∷ driver ∷ numbers l ∷ []) accepted
    ∙ gives_top (numbers l) [] []

-- sculld, whatever its parameters, when the kernel registers its driver and each of its devices (the
-- file of the driver may fail): when the numbers are registered and there is no memory for the devices,
-- the load fails and leaves the driver registered; else nothing is left, after a load that fails, and
-- after a load that succeeds and the unload.
pub driver_left :
    (ldd : Ldd) (l : Load)
    → ldd.driver_register ≡ none
    → ((i : ℕ) → ldd.device_register i ≡ none)
    → left (sculld_init ldd l) (sculld_cleanup l)
      ≡ some (if is_none l.refused && not l.allocated then driver ∷ [] else [])
driver_left ldd l registers accepted =
    subst
      (λ answer.
        left
          (sculld_init
            (record {
              driver_register = answer;
              driver_create_file = ldd.driver_create_file;
              device_register = ldd.device_register;
            })
            l)
          (sculld_cleanup l)
        ≡ some (if is_none l.refused && not l.allocated then driver ∷ [] else []))
      (sym registers)
      (sculld_lem ldd.driver_create_file ldd.device_register l l.refused l.allocated accepted)

refused_lem :
    (e : Errno) (file : Option Errno) (devices : ℕ → Option Errno) (l : Load)
    → ((i : ℕ) → devices i ≡ none)
    → let m = record l { refused = none; allocated = true } in
      let ldd : Ldd = record {
        driver_register = some e;
        driver_create_file = file;
        device_register = devices;
      } in
      ((sculld_init ldd m).0 ≡ returns 0) × (left (sculld_init ldd m) (sculld_cleanup m) ≡ none)
unfolding sculld_init sculld_cleanup register_ldd_driver
refused_lem e file devices l accepted =
    let ldd : Ldd = record {
      driver_register = some e;
      driver_create_file = file;
      device_register = devices;
    } in
    (
      refl,
      both_in_between ldd l.devs (gives (memory own) ∷ gives driver ∷ gives (numbers l) ∷ [])
          (memory own ∷ numbers l ∷ []) accepted,
    )

-- sculld, whatever its parameters, when the kernel refuses its driver but registers its numbers and each
-- of its devices, and there is memory for them: the load succeeds, and the unload unregisters the driver,
-- which is not registered.
pub refused_driver_given_back :
    (ldd : Ldd) (l : Load) (e : Errno)
    → ldd.driver_register ≡ some e
    → ((i : ℕ) → ldd.device_register i ≡ none)
    → l.refused ≡ none
    → l.allocated ≡ true
    → ((sculld_init ldd l).0 ≡ returns 0) × (left (sculld_init ldd l) (sculld_cleanup l) ≡ none)
refused_driver_given_back ldd l e refuses accepted registered allocated =
    subst claim (sym refuses) (
      subst (λ r. for_load (record l { refused = r })) (sym registered)
        (subst (λ a. for_load (record l { refused = none; allocated = a })) (sym allocated)
          (refused_lem e ldd.driver_create_file ldd.device_register l accepted)))
  where
    answered : Option Errno → Ldd
    answered a = record ldd { driver_register = a }

    for_load : Load → Type 0
    for_load m =
        ((sculld_init (answered (some e)) m).0 ≡ returns 0)
        × (left (sculld_init (answered (some e)) m) (sculld_cleanup m) ≡ none)

    claim : Option Errno → Type 0
    claim a =
        ((sculld_init (answered a) l).0 ≡ returns 0)
        × (left (sculld_init (answered a) l) (sculld_cleanup l) ≡ none)
