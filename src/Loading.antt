-- ===== src/Loading.antt =====
-- How the drivers of LinuxDeviceDrivers3Ed are loaded and unloaded: scullc, scullp, sculld and scullv,
-- main.c of each, and scull itself with its pipes and the devices with access control (main.c, pipe.c
-- and access.c of scull).
pub mod Balance
pub mod Registered
pub mod Mapped
pub mod Scull
pub mod Friends
pub mod Unload
mod Tests
use leipocode.Base.{
  ℕ, zero, suc, ◌+◌, ◌*◌, ◌^◌, Bool, true, false, ◌&&◌, not, Option, none, some, List, [], ◌∷◌,
  ◌++◌, ◌==◌, if◌then◌else◌,
}
use leipocode.Kernel.{Errno, enomem, Ret, returns, fails}

-- Whose devices: those of the driver itself, or of a friend of scull.
pub data Owner : Type 0 where
  own pipes access : Owner

-- What a driver takes from the kernel: a range of device numbers, memory for its devices, a character
-- device, a driver and a device of the device model, and a cache.
pub data Resource : Type 0 where
  region : (first count : ℕ) → Resource
  memory : Owner → Resource
  cdev device : Owner → ℕ → Resource
  driver cache : Resource

pub data Action : Type 0 where
  takes gives : Resource → Action

-- The numbers of a major and a minor.
abbrev pub mkdev : (major minor : ℕ) → ℕ
mkdev major minor = major * 2 ^ 20 + minor

-- For each device from the first on.
abbrev pub each_dev : (ℕ → List Action) → (devs : ℕ) → List Action
each_dev f zero = []
each_dev f (suc n) = each_dev f n ++ f n

-- The parameters of a module, and the kernel's answers: the error of the registration, the major
-- number that it chooses, and whether there is memory and a cache.
pub record Load : Type 0 where
  pub major : ℕ
  pub devs : ℕ
  pub refused : Option Errno
  pub dynamic : ℕ
  pub allocated : Bool
  pub cached : Bool

-- The major number, after the registration.
abbrev pub major_of : Load → ℕ
major_of l = if l.major == 0 then l.dynamic else l.major

abbrev pub numbers : Load → Resource
numbers l = region (mkdev (major_of l) 0) l.devs

-- A character device is set up. (Whether `cdev_add` succeeds changes nothing.)
abbrev pub setup_cdev : ℕ → List Action
setup_cdev i = takes (cdev own i) ∷ []

unfoldable pub scullc_setup_cdev : ℕ → List Action
scullc_setup_cdev = setup_cdev

unfoldable pub scullp_setup_cdev : ℕ → List Action
scullp_setup_cdev = setup_cdev

unfoldable pub sculld_setup_cdev : ℕ → List Action
sculld_setup_cdev = setup_cdev

unfoldable pub scullv_setup_cdev : ℕ → List Action
scullv_setup_cdev = setup_cdev

-- What is done when the region is registered, with what follows the memory for the devices.
abbrev pub registered :
    Load → (failing : List Action) (rest : Ret × List Action) → Ret × List Action
registered l failing (ret, actions) =
    if l.allocated
    then (ret, takes (memory own) ∷ actions)
    else (fails enomem, failing ++ gives (numbers l) ∷ [])

abbrev pub unless_refused : Option Errno → Ret × List Action → Ret × List Action
unless_refused none done = done
unless_refused (some e) done = (fails e, [])

-- The result of an `init` function, and what it takes and gives back.
abbrev pub loaded : Load → Ret × List Action → Ret × List Action
loaded l (ret, actions) = unless_refused l.refused (ret, takes (numbers l) ∷ actions)

unfoldable pub scullp_init : Load → Ret × List Action
unfolding scullp_setup_cdev
scullp_init l = loaded l (registered l [] (returns 0, each_dev scullp_setup_cdev l.devs))

unfoldable pub scullp_cleanup : Load → List Action
scullp_cleanup l =
    each_dev (λ i. gives (cdev own i) ∷ []) l.devs ++ gives (memory own) ∷ gives (numbers l) ∷ []

unfoldable pub scullv_init : Load → Ret × List Action
unfolding scullv_setup_cdev
scullv_init l = loaded l (registered l [] (returns 0, each_dev scullv_setup_cdev l.devs))

unfoldable pub scullv_cleanup : Load → List Action
scullv_cleanup l =
    each_dev (λ i. gives (cdev own i) ∷ []) l.devs ++ gives (memory own) ∷ gives (numbers l) ∷ []

-- `has_cache` is `scullc_cache`.
unfoldable pub scullc_cleanup : (has_cache : Bool) → Load → List Action
scullc_cleanup has_cache l =
    each_dev (λ i. gives (cdev own i) ∷ []) l.devs
    ++ (gives (memory own)
        ∷ ((if has_cache then gives cache ∷ [] else []) ++ gives (numbers l) ∷ []))

unfoldable pub scullc_init : Load → Ret × List Action
unfolding scullc_setup_cdev scullc_cleanup
scullc_init l = loaded l (
    registered l [] (
      if l.cached
      then (returns 0, each_dev scullc_setup_cdev l.devs ++ takes cache ∷ [])
      else (fails enomem, each_dev scullc_setup_cdev l.devs ++ scullc_cleanup false l)))

-- The kernel's answers to the device model of the driver, with the error of a refusal: to
-- `driver_register`, to `driver_create_file`, and to `device_register` for each device.
pub record Ldd : Type 0 where
  pub driver_register : Option Errno
  pub driver_create_file : Option Errno
  pub device_register : ℕ → Option Errno

abbrev answer : Option Errno → Ret
answer none = returns 0
answer (some e) = fails e

-- In lddbus/lddbus.c. The driver stays registered when its file cannot be made.
unfoldable pub register_ldd_driver : Ldd → Ret × List Action
register_ldd_driver ldd =
    unless_refused ldd.driver_register (answer ldd.driver_create_file, takes driver ∷ [])

unfoldable pub register_ldd_device : Ldd → ℕ → Ret × List Action
register_ldd_device ldd i =
    unless_refused (ldd.device_register i) (returns 0, takes (device own i) ∷ [])

-- The result of the registration is not used.
unfoldable pub sculld_register_dev : Ldd → ℕ → List Action
unfolding register_ldd_device
sculld_register_dev ldd i = (register_ldd_device ldd i).1

-- The result of the registration of the driver is not used.
unfoldable pub sculld_init : Ldd → Load → Ret × List Action
unfolding sculld_setup_cdev sculld_register_dev register_ldd_driver
sculld_init ldd l =
    let (ret, actions) =
      registered l []
        (returns 0, each_dev (λ i. sculld_setup_cdev i ++ sculld_register_dev ldd i) l.devs) in
    loaded l (ret, (register_ldd_driver ldd).1 ++ actions)

unfoldable pub sculld_cleanup : Load → List Action
sculld_cleanup l =
    each_dev (λ i. gives (device own i) ∷ gives (cdev own i) ∷ []) l.devs
    ++ gives (memory own) ∷ gives driver ∷ gives (numbers l) ∷ []
