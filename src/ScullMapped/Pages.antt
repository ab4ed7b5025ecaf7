-- ===== src/ScullMapped/Pages.antt =====
-- The pages that a mapping of LinuxDeviceDrivers3Ed/scullp/mmap.c shows, beside what a read returns.
use leipocode.Base.{
  ℕ, zero, suc, ◌+◌, ◌-◌, ◌*◌, ◌/◌, ◌%◌, ◌≤◌, ◌<◌, ◌≡◌, refl, sym, ap, ap₂, ◌∙◌, subst, inl, inr,
  Bool, false, Option, none, some, List, [], ◌∷◌, arith, leb, length, get_elem?, take, slice,
  Bool-cases, Option-cases, lt→leb,
}
use native.Mathlib.Nat.{
  add-div_left, mod-eq-sub-mod, div-eq_of_lt, mod-eq_of_lt, div-div-eq-div-mul, mod-eq-sub-mul-div,
  div-add-mod, mod-lt, mul_assoc,
}
use leipocode.Scull.{
  Quantum, Qset, Slot, hole, filled, outside, Place, place, slot, in_array, entry,
}
use mathlib.Core.Option.{some-injective}
use leipocode.Kernel.{all, returns}
use leipocode.Scull.{Outcome, done, Followed}
use leipocode.Scull.Valid.{Fits}
use leipocode.Scull.Slots.{slot-Fits, get_elem?-in}
use leipocode.Scull.Follow.{scull_follow-there}
use leipocode.Scull.Places.{Reachable, place-s_pos, qset_positive}
use leipocode.Scull.Write.{Idle}
use leipocode.Scull.Reread.{read_filled}
use leipocode.ScullMapped.Laws.{read_dev-scull_read}
use leipocode.ScullMapped.Scullp.{scullp_read}
use leipocode.ScullMapped.Drivers.{down}
use leipocode.ScullMapped.{Dev, core, page_size}
use leipocode.ScullMapped.Mmap.{
  in_item, entry_at, find_page, first_page, Vma, offset_of, vma_nopage,
}

-- The quantum of a slot, if there is one.
abbrev pub quantum_of : Slot → Quantum
quantum_of hole = none
quantum_of (filled b) = some b
quantum_of outside = none

in_item_lem : (i : ℕ) (x : Qset) → in_item i x ≡ quantum_of (in_array i (some x))
in_item_lem i none = refl
in_item_lem i (some a) = by_entry (get_elem? a i)
  where
    by_entry : (q : Option Quantum) → entry_at q ≡ quantum_of (entry q)
    by_entry none = refl
    by_entry (some none) = refl
    by_entry (some (some b)) = refl

pub find_page_lem :
    (n i : ℕ) (xs : List Qset)
    → 0 < n
    → find_page n i xs ≡ quantum_of (in_array (i % n) (get_elem? xs (i / n)))
unfolding find_page
find_page_lem n i [] pos = refl
find_page_lem n i (x ∷ xs) pos = elim (Bool-cases (leb n i)) [
  | inl h ↦
      let below : n ≤ i = ground (arith, h) in
      let next : i / n ≡ suc ((i - n) / n) =
        ap (λ k. k / n) (omega arith) ∙ add-div_left (i - n) pos ∙ omega arith in
      rw (h, next, mod-eq-sub-mod below) (find_page_lem n (i - n) xs pos)
  | inr h ↦
      let above : i < n = ground (arith, h) in
      rw (h, div-eq_of_lt above)
        (in_item_lem i x ∙ ap (λ k. quantum_of (in_array k (some x))) (sym (mod-eq_of_lt above)))
]

place_in_pages :
    (n pos : ℕ)
    → 0 < n
    → ((place page_size n pos).item ≡ pos / page_size / n)
      × ((place page_size n pos).s_pos ≡ pos / page_size % n)
unfolding place
place_in_pages n pos h = (
  sym (div-div-eq-div-mul pos page_size n),
  omega (
    arith,
    mod-eq-sub-mul-div pos (4096 * n),
    div-add-mod (pos / 4096) n,
    mod-lt (pos / 4096) h,
    mul_assoc 4096 n (pos / (4096 * n)),
    ap (λ t. n * t) (div-div-eq-div-mul pos 4096 n),
  ),
)

-- The page at an offset is the quantum of the place that a read of the offset computes.
find_page-slot :
    (d : Dev) (pos : ℕ)
    → 0 < d.qset
    → find_page d.qset (pos / page_size) d.items
      ≡ quantum_of (slot (place page_size d.qset pos) d.items)
unfolding slot
find_page-slot d pos h =
    let (item, s_pos) = place_in_pages d.qset pos h in
    find_page_lem d.qset (pos / page_size) d.items h
    ∙ ap₂ (λ i s. quantum_of (in_array s (get_elem? d.items i))) (sym item) (sym s_pos)

slot_of_quantum : (s : Slot) (b : List ℕ) → quantum_of s ≡ some b → s ≡ filled b
slot_of_quantum hole b e = absurd (cc e)
slot_of_quantum (filled c) b e = ap filled (some-injective _ _ e)
slot_of_quantum outside b e = absurd (cc e)

take_all : (n : ℕ) (b : List ℕ) → length b ≤ n → take n b ≡ b
take_all zero [] h = refl
take_all zero (x ∷ b) h = absurd (omega arith)
take_all (suc n) [] h = refl
take_all (suc n) (x ∷ b) h = ap (λ l. x ∷ l) (take_all n b (omega arith))

slot-item : (p : Place) (xs : List Qset) (b : List ℕ) → slot p xs ≡ filled b → p.item < length xs
unfolding slot
slot-item p xs b e = elim (Option-cases (get_elem? xs p.item)) [
  | inl h ↦ absurd (cc (sym e ∙ ap (in_array p.s_pos) h))
  | inr h ↦ get_elem?-in xs p.item h.0 h.1
]

page_cases :
    (q : Quantum) (page : List ℕ)
    → first_page q ≡ some page
    → (b : List ℕ) × (q ≡ some b) × (take page_size b ≡ page)
page_cases none page e = absurd (cc e)
page_cases (some b) page e = (b, refl, some-injective _ _ e)

q_pos_in_page : (n pos : ℕ) → (place page_size n pos).q_pos ≡ pos % page_size
unfolding place
q_pos_in_page n pos =
    omega (arith, mod-eq-sub-mul-div pos (4096 * n), mul_assoc 4096 n (pos / (4096 * n)))

-- On an idle scullp device of order 0: where the mapping shows a page at an address, a read at the
-- offset of the address, of at least one byte that the file and the page have, returns those bytes
-- of the page.
pub nopage_then_read :
    (v : Vma) (address count : ℕ) (mem : List Bool) (d : Dev) (page : List ℕ)
    → Idle (core page_size d)
    → d.unit ≡ 0
    → let pos = offset_of v address in
      Reachable (core page_size d) pos
      → 0 < count
      → pos + count ≤ d.size
      → count ≤ page_size - pos % page_size
      → vma_nopage v address d ≡ some page
      → scullp_read false count all mem pos d (down d)
        ≡ done (returns count) (slice page (pos % page_size) count) (pos + count) (core page_size d)
unfolding scullp_read vma_nopage
nopage_then_read v address count mem d page i order reach some_bytes below within shown =
    let pos = offset_of v address in
    let e = core page_size d in
    let qset_pos : 0 < d.qset = qset_positive i.valid in
    let lookup : first_page (find_page d.qset (pos / page_size) d.items) ≡ some page =
      rw (lt→leb d.size pos (omega arith)) at shown in
    let (b, found, whole) = page_cases (find_page d.qset (pos / page_size) d.items) page lookup in
    let p = place page_size d.qset pos in
    let full : slot p d.items ≡ filled b =
      slot_of_quantum (slot p d.items) b (sym (find_page-slot d pos qset_pos) ∙ found) in
    let there = slot-item p d.items b full in
    let l : length b ≡ page_size =
      subst (Fits page_size) full
        (slot-Fits page_size d.qset p d.items i.valid.shaped there (place-s_pos pos i.valid)) in
    let q : p.q_pos ≡ pos % page_size = q_pos_in_page d.qset pos in
    let run =
      read_filled e i b count mem pos reach refl refl there full l (omega (arith, q)) some_bytes
        below in
    let same =
      read_dev-scull_read e (record e { sem = e.sem - 1 }) false count all mem pos (omega arith)
        (ap (λ (r : Followed). r.found) (scull_follow-there p.item mem d.items there)) in
    let kept : b ≡ page = sym (take_all page_size b (omega (arith, l))) ∙ whole in
    let end : List ℕ → ℕ → ℕ → Outcome =
      λ c k s. done (returns count) (slice c k count) (pos + count) (record e { sem = s }) in
    rw order (
      same
      ∙ run
      ∙ ap₂ (λ c k. end c k (d.sem - 1 + 1)) kept q
      ∙ ap (end page (pos % page_size)) (omega (arith, i.free)))
