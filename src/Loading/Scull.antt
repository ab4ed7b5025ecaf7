-- ===== src/Loading/Scull.antt =====
-- How scull is loaded and unloaded with its friends: main.c, pipe.c and access.c of
-- LinuxDeviceDrivers3Ed/scull.
use leipocode.Base.{
  ℕ, ◌+◌, Bool, true, false, Option, none, some, List, [], ◌∷◌, ◌++◌, if◌then◌else◌,
}
use leipocode.Kernel.{Errno, enomem, Ret, returns, fails}
use leipocode.Loading.{
  own, pipes, access, Resource, region, memory, cdev, Action, takes, gives, each_dev, mkdev, Load,
  major_of, setup_cdev,
}

-- The parameters and the kernel's answers for the driver itself; its first minor number; for the
-- pipes, how many, whether their numbers are refused, and whether there is memory for them; and for
-- the devices with access control, whether the numbers are refused, and whether `cdev_add` adds each
-- of them.
pub record ScullLoad : Type 0 where
  pub main : Load
  pub minor : ℕ
  pub nr_pipes : ℕ
  pub pipes_refused : Bool
  pub pipes_allocated : Bool
  pub access_refused : Bool
  pub added : ℕ → Bool

-- Whether `scull_devices` and `scull_p_devices` are set, `scull_p_devno`, and `scull_a_firstdev`.
pub record Statics : Type 0 where
  pub devices : Bool
  pub p_devices : Bool
  pub p_devno : ℕ
  pub a_firstdev : ℕ

abbrev pub unset : Statics
unset = record { devices = false; p_devices = false; p_devno = 0; a_firstdev = 0 }

-- How many devices an `init` function of a friend did, what it takes and gives back, and the variables.
pub record Friend : Type 0 where
  pub did : ℕ
  pub actions : List Action
  pub statics : Statics

unfoldable pub scull_p_setup_cdev : ℕ → List Action
scull_p_setup_cdev i = takes (cdev pipes i) ∷ []

unfoldable pub scull_p_init : ScullLoad → (firstdev : ℕ) → Statics → Friend
unfolding scull_p_setup_cdev
scull_p_init l firstdev s =
    let r = region firstdev l.nr_pipes in
    if l.pipes_refused
    then record { did = 0; actions = []; statics = s }
    else if l.pipes_allocated
    then record {
      did = l.nr_pipes;
      actions = takes r ∷ takes (memory pipes) ∷ each_dev scull_p_setup_cdev l.nr_pipes;
      statics = record s { p_devices = true; p_devno = firstdev };
    }
    else record {
      did = 0;
      actions = takes r ∷ gives r ∷ [];
      statics = record s { p_devno = firstdev };
    }

unfoldable pub scull_p_cleanup : ScullLoad → Statics → List Action
scull_p_cleanup l s =
    if s.p_devices
    then each_dev (λ i. gives (cdev pipes i) ∷ []) l.nr_pipes
      ++ gives (memory pipes) ∷ gives (region s.p_devno l.nr_pipes) ∷ []
    else []

-- SCULL_N_ADEVS
abbrev pub n_adevs : ℕ
n_adevs = 4

-- A device that is not added is put.
unfoldable pub scull_access_setup : (added : ℕ → Bool) → ℕ → List Action
scull_access_setup added i =
    takes (cdev access i) ∷ (if added i then [] else gives (cdev access i) ∷ [])

unfoldable pub scull_access_init : ScullLoad → (firstdev : ℕ) → Statics → Friend
unfolding scull_access_setup
scull_access_init l firstdev s =
    if l.access_refused then record { did = 0; actions = []; statics = s } else record {
      did = n_adevs;
      actions = takes (region firstdev n_adevs) ∷ each_dev (scull_access_setup l.added) n_adevs;
      statics = record s { a_firstdev = firstdev };
    }

unfoldable pub scull_access_cleanup : Statics → List Action
scull_access_cleanup s =
    each_dev (λ i. gives (cdev access i) ∷ []) n_adevs ++ gives (region s.a_firstdev n_adevs) ∷ []

abbrev pub own_numbers : ScullLoad → Resource
own_numbers l = region (mkdev (major_of l.main) l.minor) l.main.devs

unfoldable pub scull_cleanup_module : ScullLoad → Statics → List Action
unfolding scull_p_cleanup scull_access_cleanup
scull_cleanup_module l s =
    (if s.devices
      then each_dev (λ i. gives (cdev own i) ∷ []) l.main.devs ++ gives (memory own) ∷ []
      else [])
    ++ (gives (own_numbers l) ∷ (scull_p_cleanup l s ++ scull_access_cleanup s))

unfoldable pub scull_setup_cdev : ℕ → List Action
scull_setup_cdev = setup_cdev

-- `scull_init_module` behind the registration, with memory.
unfoldable pub friends : ScullLoad → List Action × Statics
unfolding scull_p_init scull_access_init
friends l =
    let dev = mkdev (major_of l.main) (l.minor + l.main.devs) in
    let p = scull_p_init l dev (record unset { devices = true }) in
    let a = scull_access_init l (dev + p.did) p.statics in (p.actions ++ a.actions, a.statics)

abbrev refused_or : Option Errno → Ret × List Action × Statics → Ret × List Action × Statics
refused_or none done = done
refused_or (some e) done = (fails e, [], unset)

unfoldable pub scull_init_module : ScullLoad → Ret × List Action × Statics
unfolding scull_setup_cdev friends scull_cleanup_module
scull_init_module l = refused_or l.main.refused (
    if l.main.allocated
    then (
      returns 0,
      takes (own_numbers l)
          ∷ takes (memory own)
          ∷ (each_dev scull_setup_cdev l.main.devs ++ (friends l).0),
      (friends l).1,
    )
    else (fails enomem, takes (own_numbers l) ∷ scull_cleanup_module l unset, unset))
