-- ===== src/Sbull/Setup.antt =====
-- The set-up and the removal of a disk of LinuxDeviceDrivers3Ed/sbull/sbull.c.
use leipocode.Base.{
  ℕ, ◌+◌, ◌-◌, ◌*◌, ◌/◌, ◌%◌, ◌^◌, ◌≡◌, refl, ap, ◌∙◌, Bool, true, false, not, ◌&&◌, arith,
  if◌then◌else◌,
}
use native.Mathlib.Nat.{mul_assoc, mul_comm}
use leipocode.Sbull.{Disk, kernel_sector_size}
use leipocode.Sbull.Media.{geometry}

-- An entry of `Devices`: its size, which of its pointers are set, how often its array was given to
-- `vfree`, and the capacity that the kernel was told.
pub record Entry : Type 0 where
  pub size : ℕ
  pub has_data : Bool
  pub has_queue : Bool
  pub has_gd : Bool
  pub vfrees : ℕ
  pub capacity : ℕ

-- `memory`, `queue` and `disk` say whether `vmalloc`, the allocation of the queue, and `alloc_disk`
-- succeed. (The product of the sizes stays in the range of `int`.)
unfoldable pub setup_device : (nsectors hardsect_size : ℕ) (memory queue disk : Bool) → Entry
setup_device nsectors hardsect_size memory queue disk =
    let new : Entry = record {
      size = nsectors * hardsect_size;
      has_data = memory;
      has_queue = false;
      has_gd = false;
      vfrees = 0;
      capacity = 0;
    } in
    if not memory
    then new
    else if not queue
    then record new { vfrees = 1 }
    else if not disk
    then record new { has_queue = true; vfrees = 1 }
    else record new {
      has_queue = true;
      has_gd = true;
      capacity = nsectors * (hardsect_size / kernel_sector_size);
    }

-- What `sbull_exit` does with an entry.
unfoldable pub removed : Entry → Entry
removed e = if e.has_data then record e { vfrees = e.vfrees + 1 } else e

-- A disk that is set up and removed gives its array to `vfree` once if the set-up succeeds, and twice
-- if the queue or the disk is not allocated.
pub setup_device-removed :
    (nsectors hardsect_size : ℕ) (memory queue disk : Bool)
    → (removed (setup_device nsectors hardsect_size memory queue disk)).vfrees
      ≡ (if memory then if queue && disk then 1 else 2 else 0)
unfolding setup_device removed
setup_device-removed n h false queue disk = refl
setup_device-removed n h true false disk = refl
setup_device-removed n h true true false = refl
setup_device-removed n h true true true = refl

cylinders_of : (k : ℕ) → (k - k % 64) / 2 ^ 6 ≡ k / 64
cylinders_of k = omega arith

-- The geometry of a disk as it is set up: the cylinders of 64 sectors are those of `hardsect_size`
-- times as many sectors as the kernel was told, modulo 2 ^ 16, since the size is in bytes.
pub geometry-setup_device :
    (nsectors hardsect_size : ℕ) (d : Disk)
    → let e = setup_device nsectors hardsect_size true true true in
      d.size ≡ e.size
      → (geometry hardsect_size d).cylinders ≡ hardsect_size * e.capacity / 64 % 2 ^ 16
unfolding setup_device
geometry-setup_device n h d size =
    let s = h / kernel_sector_size in
    let same : d.size * s ≡ h * (n * s) = ap (λ k. k * s) (size ∙ mul_comm n h) ∙ mul_assoc h n s in
    ap (λ k. k % 2 ^ 16) (cylinders_of (d.size * s) ∙ ap (λ k. k / 64) same)
