-- ===== src/LinkedList/Abstract/Refine.antt =====
-- The commands of list/list.c refine the operations on sequences.
use leipocode.Base.{
  ◌+◌, ◌^◌, ◌<◌, ap, arith, length, ◌≡◌, refl, sym, subst, ◌≢◌, inl, inr, none, List, [], ◌∷◌, ◌++◌,
  ◌∙◌, ne→==, eq→==, append_assoc, append-nil,
}
use native.Mathlib.Decide.{ℕ_discrete}
use leipocode.LinkedList.Memory.{Ptr, null, Store, ok}
use leipocode.LinkedList.Chain.{Cells, items, NotIn, IsList, items-append, NotIn-of_append}
use leipocode.LinkedList.Find.{locate, unique_before}
use leipocode.LinkedList.Insert.{
  list_insert-behind, list_insert-nil, list_insert-present, list_insert-no_memory,
  list_insert-no_reference,
}
use leipocode.LinkedList.Append.{list_append-last, list_append-insert}
use leipocode.LinkedList.Remove.{list_remove_lem, list_remove-absent}
use leipocode.LinkedList.{
  ListError, insufficient_memory, element_already_in_list, element_not_in_list, list_insert,
}
use leipocode.LinkedList.Abstract.Observe.{length-items}
use leipocode.LinkedList.Abstract.Lemmas.{member-absent}
use leipocode.LinkedList.Abstract.{Holds, Op, insert, append, remove, call, spec, Allowed}
use leipocode.LinkedList.Abstract.Outcome.{
  Refines, refines, unchanged, full_with, full_without, present, spec-remove, spec-insert,
}

-- The data that the call looks for stands in the list.
module _ {s : Store} (d : Ptr) (ys : Cells) (p : Ptr) (zs : Cells)
    (is : IsList s (ys ++ (p, d) ∷ zs)) (full : NotIn null (items (ys ++ (p, d) ∷ zs))) where
  remove_found : d ≢ null → Refines (remove d) s (items (ys ++ (p, d) ∷ zs))
  unfolding call
  remove_found ne =
      refines (remove d) _ ListError.ok (ys ++ (p, d) ∷ zs) (ys ++ zs)
        (spec-remove d ys p zs (unique_before ys p d zs is)) (full_without ys zs (p, d) full)
        (list_remove_lem d ys p zs ne is).yields

  insert_found :
      (fresh r : Ptr) → d ≢ null → Refines (insert fresh d r) s (items (ys ++ (p, d) ∷ zs))
  unfolding call spec
  insert_found fresh r ne =
      unchanged (insert fresh d r) _ element_already_in_list
        (record { cells = ys ++ (p, d) ∷ zs; list = is; data_eq = refl; full = full })
        (rw (present d ys p zs)) (list_insert-present fresh d r ys p zs ne is)

  insert_at :
      (fresh n : Ptr)
      → d ≢ null
      → n ≢ null
      → fresh ≢ null
      → s.cells fresh ≡ none
      → NotIn n (items (ys ++ (p, d) ∷ zs))
      → s.size + 1 < 2 ^ 31
      → Refines (insert fresh n d) s (items (ys ++ (p, d) ∷ zs))
  unfolding call
  insert_at fresh n ne ne' live unused new fits =
      let ws = ys ++ (p, d) ∷ (fresh, n) ∷ zs in
      refines (insert fresh n d) _ ListError.ok ws ws
        (spec-insert fresh n d ys p zs live new (unique_before ys p d zs is))
        (subst (λ l. NotIn null (items l)) (append_assoc ys ((p, d) ∷ []) ((fresh, n) ∷ zs))
          (full_with (ys ++ (p, d) ∷ []) zs n fresh ne'
            (subst (λ l. NotIn null (items l)) (sym (append_assoc ys ((p, d) ∷ []) zs)) full)))
        (list_insert-behind fresh n d ys p zs ne live unused new is fits)

-- Data that is new to the list.
module _ {s : Store} (fresh d : Ptr) (xs : Cells) (ne : d ≢ null) (is : IsList s xs)
    (full : NotIn null (items xs)) (new : NotIn d (items xs)) where
  holds : Holds s (items xs)
  holds = record { cells = xs; list = is; data_eq = refl; full = full }

  append_new :
      fresh ≢ null
      → s.cells fresh ≡ none
      → s.size + 1 < 2 ^ 31
      → Refines (append fresh d) s (items xs)
  unfolding call spec
  append_new live unused fits =
      let ws = xs ++ (fresh, d) ∷ [] in
      refines (append fresh d) _ ListError.ok ws ws
        (rw (member-absent d (items xs) new, ne→== fresh null live, items-append))
        (full_with xs [] d fresh ne (subst (λ l. NotIn null (items l)) (sym (append-nil xs)) full))
        (list_append-last fresh d xs live unused full new is fits)

  insert_no_memory : (r : Ptr) → fresh ≡ null → Refines (insert fresh d r) s (items xs)
  unfolding call spec
  insert_no_memory r e =
      unchanged (insert fresh d r) _ insufficient_memory holds
        (rw (member-absent d (items xs) new, eq→== fresh null e))
        (subst (λ f. list_insert f d r s ≡ ok insufficient_memory s) (sym e)
          (list_insert-no_memory d r new is))

  append_no_memory : fresh ≡ null → Refines (append fresh d) s (items xs)
  unfolding call spec
  append_no_memory e =
      let (r, run) = list_append-insert fresh d xs is in
      unchanged (append fresh d) _ insufficient_memory holds
        (rw (member-absent d (items xs) new, eq→== fresh null e))
        (run
          ∙ subst (λ f. list_insert f d r s ≡ ok insufficient_memory s) (sym e)
              (list_insert-no_memory d r new is))

append_found :
    {s : Store} (fresh d : Ptr) (ys : Cells) (p : Ptr) (zs : Cells)
    → IsList s (ys ++ (p, d) ∷ zs)
    → NotIn null (items (ys ++ (p, d) ∷ zs))
    → d ≢ null
    → Refines (append fresh d) s (items (ys ++ (p, d) ∷ zs))
unfolding call spec
append_found fresh d ys p zs is full ne =
    let (r, run) = list_append-insert fresh d (ys ++ (p, d) ∷ zs) is in
    unchanged (append fresh d) _ element_already_in_list
      (record { cells = ys ++ (p, d) ∷ zs; list = is; data_eq = refl; full = full })
      (rw (present d ys p zs)) (run ∙ list_insert-present fresh d r ys p zs ne is)

insert_new :
    {s : Store} (fresh d r : Ptr) (xs : Cells)
    → d ≢ null
    → fresh ≢ null
    → s.cells fresh ≡ none
    → IsList s xs
    → NotIn null (items xs)
    → NotIn d (items xs)
    → s.size + 1 < 2 ^ 31
    → Refines (insert fresh d r) s (items xs)
unfolding call spec
insert_new {s} fresh d r [] ne live unused is full new fits =
    let ws : Cells = (fresh, d) ∷ [] in
    refines (insert fresh d r) [] ListError.ok ws ws (rw (ne→== fresh null live))
      ((λ e. ne (sym e)), tt) (list_insert-nil fresh d r live is)
insert_new {s} fresh d r (c ∷ xs) ne live unused is full new fits = elim (locate r (c ∷ xs)) [
  | inl out ↦
      refines (insert fresh d r) (items (c ∷ xs)) element_not_in_list [] (c ∷ xs)
        (rw (
          member-absent d (items (c ∷ xs)) new,
          ne→== fresh null live,
          member-absent r (items (c ∷ xs)) out,
        ))
        full (list_insert-no_reference fresh d r c xs live unused new out is)
  | inr f ↦
      let at = λ (l : Cells). IsList s l × NotIn null (items l) × NotIn d (items l) in
      let h = subst at f.whole (is, full, new) in
      subst (λ l. Refines (insert fresh d r) s (items l)) (sym f.whole)
        (insert_at r f.before f.pos f.after h.0 h.1 fresh d
          (λ e.
            (NotIn-of_append null (items f.before) (r ∷ items f.after)
                (subst (NotIn null) (items-append f.before ((f.pos, r) ∷ f.after)) h.1)).1.0
              (sym e))
          ne live unused h.2 fits)
]

on_cells :
    (o : Op) {s : Store} (xs : Cells)
    → IsList s xs
    → NotIn null (items xs)
    → Allowed o s
    → s.size + 1 < 2 ^ 31
    → Refines o s (items xs)
on_cells (insert fresh d r) {s} xs is full ok' fits = elim (locate d xs) [
  | inl out ↦ elim (ℕ_discrete fresh null) [
    | yes e ↦ insert_no_memory fresh d xs ok'.0 is full out r e
    | no live ↦ insert_new fresh d r xs ok'.0 live (ok'.1 live) is full out fits
  ]
  | inr f ↦
      let at = λ (l : Cells). IsList s l × NotIn null (items l) in
      let h = subst at f.whole (is, full) in
      subst (λ l. Refines (insert fresh d r) s (items l)) (sym f.whole)
        (insert_found d f.before f.pos f.after h.0 h.1 fresh r ok'.0)
]
on_cells (append fresh d) {s} xs is full ok' fits = elim (locate d xs) [
  | inl out ↦ elim (ℕ_discrete fresh null) [
    | yes e ↦ append_no_memory fresh d xs ok'.0 is full out e
    | no live ↦ append_new fresh d xs ok'.0 is full out live (ok'.1 live) fits
  ]
  | inr f ↦
      let at = λ (l : Cells). IsList s l × NotIn null (items l) in
      let h = subst at f.whole (is, full) in
      subst (λ l. Refines (append fresh d) s (items l)) (sym f.whole)
        (append_found fresh d f.before f.pos f.after h.0 h.1 ok'.0)
]
on_cells (remove d) {s} xs is full ne fits = elim (locate d xs) [
  | inl out ↦
      unchanged (remove d) (items xs) element_not_in_list
        (record { cells = xs; list = is; data_eq = refl; full = full })
        (unfold spec in rw (member-absent d (items xs) out))
        (unfold call in list_remove-absent d out is)
  | inr f ↦
      let at = λ (l : Cells). IsList s l × NotIn null (items l) in
      let h = subst at f.whole (is, full) in
      subst (λ l. Refines (remove d) s (items l)) (sym f.whole)
        (remove_found d f.before f.pos f.after h.0 h.1 ne)
]

-- Every call, of `list_insert`, `list_append` or `list_remove`, on a store that holds a sequence of
-- fewer than 2 ^ 31 - 1 elements, ends on a store, returns the code that the operation on the sequence
-- has, and leaves the store holding what it makes of the sequence; the data of the call is not NULL, and
-- `malloc` returns NULL or an address that is not in use.
pub call_refines :
    (o : Op) {s : Store} (l : List Ptr)
    → Holds s l
    → Allowed o s
    → length l + 1 < 2 ^ 31
    → (t : Store) × (call o s ≡ ok (spec o l).0 t) × Holds t (spec o l).1
call_refines o {s} l h allowed few =
    let counted : s.size ≡ length l =
      h.list.size_eq ∙ sym (length-items h.cells) ∙ ap length h.data_eq in
    let r =
      subst (Refines o s) h.data_eq
        (on_cells o h.cells h.list h.full allowed (omega (arith, counted, few))) in
    (r.store, r.result, r.holds)
