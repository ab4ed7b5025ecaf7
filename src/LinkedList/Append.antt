-- ===== src/LinkedList/Append.antt =====
-- `list_append` of list/list.c.
use leipocode.Base.{
  ◌+◌, ◌^◌, ◌<◌, ◌≡◌, refl, sym, ap, subst, ◌≢◌, none, [], ◌∷◌, ◌++◌, ◌∙◌, ne→==, eq→==,
  append_assoc,
}
use leipocode.LinkedList.Memory.{Ptr, null, node, Store, ok}
use leipocode.LinkedList.Chain.{
  Cells, items, last_or, NotIn, IsList, Yields, items-append, NotIn-of_append,
}
use leipocode.LinkedList.Find.{middle, load-ok, tail_is_last}
use leipocode.LinkedList.{ListError, list_insert, list_append, list_tail}
use leipocode.LinkedList.Insert.{list_insert-behind, list_insert-nil}

snoc : (c : Ptr × Ptr) (xs : Cells) → (ys : Cells) × (e : Ptr × Ptr) × (c ∷ xs ≡ ys ++ e ∷ [])
snoc c [] = ([], c, refl)
snoc c (c' ∷ xs) = let (ys, e, h) = snoc c' xs in (c ∷ ys, e, ap (λ l. c ∷ l) h)

list_tail-last :
    {s : Store} (ys : Cells) (p d : Ptr)
    → IsList s (ys ++ (p, d) ∷ [])
    → (s.tail ≢ null) × (list_tail s ≡ ok d s)
unfolding list_tail
list_tail-last {s} ys p d is =
    let m = middle s.cells null null ys p d [] is.chain in
    let at_end : s.tail ≡ p = tail_is_last ys p d [] is in
    let live : s.tail ≢ null = λ e. m.0 (sym at_end ∙ e) in
    (
      live,
      rw (
        ne→== s.tail null live,
        load-ok s s.tail (node d null (last_or null ys)) live (ap s.cells at_end ∙ m.1),
      ),
    )

append_behind :
    {s : Store} (fresh d : Ptr) (ys : Cells) (p r : Ptr)
    → fresh ≢ null
    → s.cells fresh ≡ none
    → NotIn null (items (ys ++ (p, r) ∷ []))
    → NotIn d (items (ys ++ (p, r) ∷ []))
    → IsList s (ys ++ (p, r) ∷ [])
    → s.size + 1 < 2 ^ 31
    → let xs = ys ++ (p, r) ∷ (fresh, d) ∷ [] in Yields s ListError.ok xs xs (list_append fresh d s)
unfolding list_append
append_behind {s} fresh d ys p r live unused full new is fits =
    let t = list_tail-last ys p r is in
    let r_live : r ≢ null =
      λ e. (NotIn-of_append null (items ys) (r ∷ []) (rw items-append at full)).1.0 (sym e) in
    rw (ne→== s.tail null t.0, t.1)
      (list_insert-behind fresh d r ys p [] r_live live unused new is fits)

-- `list_append` puts the new data last, also on an empty list, with fewer than 2 ^ 31 - 1 elements.
pub list_append-last :
    {s : Store} (fresh d : Ptr) (xs : Cells)
    → fresh ≢ null
    → s.cells fresh ≡ none
    → NotIn null (items xs)
    → NotIn d (items xs)
    → IsList s xs
    → s.size + 1 < 2 ^ 31
    → let ys = xs ++ (fresh, d) ∷ [] in Yields s ListError.ok ys ys (list_append fresh d s)
unfolding list_append
list_append-last {s} fresh d [] live unused full new is fits =
    rw (eq→== s.tail null is.tail_eq) (list_insert-nil fresh d null live is)
list_append-last {s} fresh d (c ∷ xs) live unused full new is fits =
    let (ys, (p, r), whole) = snoc c xs in
    subst (λ l. Yields s ListError.ok l l (list_append fresh d s))
      (sym (append_assoc ys ((p, r) ∷ []) ((fresh, d) ∷ []))
        ∙ ap (λ l. l ++ (fresh, d) ∷ []) (sym whole))
      (append_behind fresh d ys p r live unused (subst (λ l. NotIn null (items l)) whole full)
        (subst (λ l. NotIn d (items l)) whole new) (subst (IsList s) whole is) fits)

-- `list_append` is `list_insert` at some reference.
pub list_append-insert :
    {s : Store} (fresh d : Ptr) (xs : Cells)
    → IsList s xs
    → (r : Ptr) × (list_append fresh d s ≡ list_insert fresh d r s)
unfolding list_append
list_append-insert fresh d [] is = (null, rw (eq→== _ null is.tail_eq))
list_append-insert {s} fresh d (c ∷ xs) is =
    let (ys, (p, r), whole) = snoc c xs in
    let t = list_tail-last ys p r (subst (IsList s) whole is) in
    (r, rw (ne→== s.tail null t.0, t.1))
