-- ===== src/Loading/Tests.antt =====
-- Drivers of LinuxDeviceDrivers3Ed that are loaded and unloaded.
use leipocode.Base.{
  ◌≡◌, refl, true, false, ◌&&◌, not, none, some, [], ◌∷◌, ◌++◌, arith, if◌then◌else◌,
}
use leipocode.Kernel.{enomem, returns, fails}
use leipocode.Loading.{
  Load, Ldd, driver, scullp_init, scullp_cleanup, scullv_init, scullv_cleanup, scullc_init,
  scullc_cleanup, sculld_init, sculld_cleanup,
}
use leipocode.Loading.Balance.{after}
use leipocode.Loading.Mapped.{left, is_none, nothing_left, driver_left, refused_driver_given_back}
use leipocode.Loading.Scull.{ScullLoad, scull_init_module, scull_cleanup_module}
use leipocode.Loading.Friends.{smooth}
use leipocode.Loading.Unload.{scull_unloads, no_memory_for_devices}

-- Four devices, a dynamic major number, and no cache.
abbrev no_cache : Load
no_cache = record {
  major = 0;
  devs = 4;
  refused = none;
  dynamic = 254;
  allocated = true;
  cached = false;
}

nothing_left_example :
    (left (scullp_init no_cache) (scullp_cleanup no_cache) ≡ some [])
    × (left (scullv_init no_cache) (scullv_cleanup no_cache) ≡ some [])
    × (left (scullc_init no_cache) (scullc_cleanup no_cache.cached no_cache) ≡ some [])
nothing_left_example = nothing_left no_cache

abbrev no_memory : Load
no_memory = record no_cache { allocated = false }

-- The driver core accepts everything but the file of the driver.
abbrev no_file : Ldd
no_file = record {
  driver_register = none;
  driver_create_file = some enomem;
  device_register = λ i. none;
}

driver_left_example :
    left (sculld_init no_file no_memory) (sculld_cleanup no_memory)
    ≡ some (if is_none no_memory.refused && not no_memory.allocated then driver ∷ [] else [])
driver_left_example = driver_left no_file no_memory refl (λ i. refl)

abbrev no_driver : Ldd
no_driver = record no_file { driver_register = some enomem }

abbrev with_cache : Load
with_cache = record no_cache { cached = true }

refused_driver_given_back_example :
    ((sculld_init no_driver with_cache).0 ≡ returns 0)
    × (left (sculld_init no_driver with_cache) (sculld_cleanup with_cache) ≡ none)
refused_driver_given_back_example =
    refused_driver_given_back no_driver with_cache enomem refl (λ i. refl) refl refl

scull_unloads_example :
    let l = smooth 0 254 0 4 4 in
    let (ret, actions, statics) = scull_init_module l in
    (ret ≡ returns 0) × (after (actions ++ scull_cleanup_module l statics) [] ≡ some [])
scull_unloads_example = scull_unloads 0 254 0 4 4 (omega arith) (omega arith)

abbrev failing : ScullLoad
failing = record (smooth 0 254 0 4 4) { main = no_memory }

no_memory_for_devices_example :
    ((scull_init_module failing).0 ≡ fails enomem) × (after (scull_init_module failing).1 [] ≡ none)
no_memory_for_devices_example = no_memory_for_devices failing refl refl
