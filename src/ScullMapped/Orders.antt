-- ===== src/ScullMapped/Orders.antt =====
-- Mappings of LinuxDeviceDrivers3Ed/scullv/mmap.c, which are made for every order.
use leipocode.Base.{
  ℕ, ◌*◌, ◌^◌, ◌≤◌, ◌<◌, ◌≡◌, refl, ◌∙◌, some, List, arith, get_elem?, take, lt→leb,
}
use native.Mathlib.Nat.{div-eq_of_lt, mod-eq_of_lt, pow-le-pow_right, mul-le-mul_left}
use leipocode.Scull.{Quantum, place}
use leipocode.ScullMapped.{Dev, page_size}
use leipocode.ScullMapped.Mmap.{find_page, Vma, offset_of, vma_nopage, scullv_vma_nopage}
use leipocode.ScullMapped.Drivers.{block}
use leipocode.ScullMapped.Pages.{find_page_lem}

-- On a scullv device with quanta of several pages, at least two to an array: at offset PAGE_SIZE the
-- mapping shows the first page of the second quantum, and a read takes the second page of the first.
pub scullv_shows_next_quantum :
    (v : Vma) (address : ℕ) (d : Dev) (a : List Quantum) (b : List ℕ)
    → 0 < d.unit
    → 1 < d.qset
    → page_size < d.size
    → get_elem? d.items 0 ≡ some (some a)
    → get_elem? a 1 ≡ some (some b)
    → offset_of v address ≡ page_size
    → (scullv_vma_nopage v address d ≡ some (take page_size b))
      × (place (block d) d.qset page_size ≡ record { item = 0; s_pos = 0; q_pos = page_size })
unfolding scullv_vma_nopage vma_nopage place
scullv_shows_next_quantum v address d a b order n large e h at_page =
    let shown : find_page d.qset 1 d.items ≡ some b =
      find_page_lem d.qset 1 d.items (omega arith)
      ∙ rw (mod-eq_of_lt n, div-eq_of_lt n, e, h) refl in
    let two : 2 ^ 1 ≤ 2 ^ d.unit = pow-le-pow_right (omega arith) order in
    let short : page_size < block d = omega (arith, two) in
    let shorter : page_size < block d * d.qset =
      omega (arith, short, mul-le-mul_left (block d) n) in
    (
      rw (at_page, lt→leb d.size page_size large, shown),
      rw (mod-eq_of_lt shorter, div-eq_of_lt shorter, mod-eq_of_lt short, div-eq_of_lt short),
    )
