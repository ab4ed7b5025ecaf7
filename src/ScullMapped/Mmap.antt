-- ===== src/ScullMapped/Mmap.antt =====
-- LinuxDeviceDrivers3Ed/scullp/mmap.c, and the mmap.c of sculld and scullv. (The one of scullc is not
-- among the objects of its module.)
use leipocode.Base.{
  ℕ, ◌+◌, ◌-◌, ◌*◌, ◌/◌, ◌%◌, ◌^◌, Option, none, some, List, [], ◌∷◌, leb, ◌==◌, if◌then◌else◌,
  get_elem?, take,
}
use leipocode.Kernel.{enodev, Ret, returns, fails, inc, dec}
use leipocode.Scull.{Qset, Quantum}
use leipocode.ScullMapped.{Dev, page_size}

-- The part of `struct vm_area_struct` that is read.
pub record Vma : Type 0 where
  pub vm_start : ℕ
  pub vm_pgoff : ℕ

unfoldable pub vma_open : Dev → Dev
vma_open d = record d { vmas = inc d.vmas }

unfoldable pub vma_close : Dev → Dev
vma_close d = record d { vmas = dec d.vmas }

-- `ptr->data[offset]`; out of the array nothing is found.
abbrev pub entry_at : Option Quantum → Quantum
entry_at none = none
entry_at (some q) = q

abbrev pub in_item : ℕ → Qset → Quantum
in_item i none = none
in_item i (some a) = entry_at (get_elem? a i)

-- The walk along the list, and the quantum at the place where it ends.
unfoldable pub find_page : (qset offset : ℕ) → List Qset → Quantum
find_page n i [] = none
find_page n i (x ∷ xs) = let rest = find_page n (i - n) xs in if leb n i then rest else in_item i x

-- The page that the quantum starts with.
abbrev pub first_page : Quantum → Option (List ℕ)
first_page none = none
first_page (some b) = some (take page_size b)

-- The offset of an address in the file.
abbrev pub offset_of : Vma → (address : ℕ) → ℕ
offset_of v address = (address + 2 ^ 64 - v.vm_start + v.vm_pgoff * page_size) % 2 ^ 64

-- `scullp_vma_nopage`: the bytes of the page, or `none` for SIGBUS.
unfoldable pub vma_nopage : Vma → (address : ℕ) → Dev → Option (List ℕ)
unfolding find_page
vma_nopage v address d =
    let offset = offset_of v address in
    if leb d.size offset then none else first_page (find_page d.qset (offset / page_size) d.items)

unfoldable pub scullp_mmap : Dev → Ret × Dev
unfolding vma_open
scullp_mmap d = if d.unit == 0 then (returns 0, vma_open d) else (fails enodev, d)

unfoldable pub sculld_mmap : Dev → Ret × Dev
unfolding vma_open
sculld_mmap d = if d.unit == 0 then (returns 0, vma_open d) else (fails enodev, d)

-- Of any order.
unfoldable pub scullv_mmap : Dev → Ret × Dev
unfolding vma_open
scullv_mmap d = (returns 0, vma_open d)

unfoldable pub sculld_vma_nopage : Vma → (address : ℕ) → Dev → Option (List ℕ)
unfolding vma_nopage
sculld_vma_nopage = vma_nopage

unfoldable pub scullv_vma_nopage : Vma → (address : ℕ) → Dev → Option (List ℕ)
unfolding vma_nopage
scullv_vma_nopage = vma_nopage
