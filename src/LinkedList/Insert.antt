-- ===== src/LinkedList/Insert.antt =====
-- `list_insert` of list/list.c.
use leipocode.Base.{
  ◌+◌, ◌^◌, ◌<◌, lt→ltb, ◌≡◌, refl, sym, ◌≢◌, none, some, [], ◌∷◌, ◌++◌, arith, ◌∙◌, ne→==, eq→==,
  length-append,
}
use leipocode.LinkedList.Memory.{Ptr, null, node, Store, ok, update}
use leipocode.LinkedList.Chain.{
  Cells, ptrs, items, first_or, last_or, NotIn, IsList, Yields, IsList-update, NotIn-of_unused,
  ptrs-append, NotIn-of_append,
}
use leipocode.LinkedList.Find.{
  middle, not_tail, tail_is_last, apart_after, list_find_pos-present, has_member-absent,
  has_member-present, list_find_pos-absent, free-ok,
}
use leipocode.LinkedList.{
  ListError, element_already_in_list, insufficient_memory, element_not_in_list, insert_behind,
  list_insert,
}
use leipocode.LinkedList.Link.{
  linked_last, linked_between, link_after-last, link_after-between, Inserted-last, Inserted-between,
  fresh_apart,
}

-- From the search for the reference on, with the new node in memory.
insert_behind_lem :
    {s : Store} (fresh d r : Ptr) (ys : Cells) (p : Ptr) (zs : Cells)
    → r ≢ null
    → fresh ≢ null
    → s.cells fresh ≡ some (node d null null)
    → NotIn fresh (ptrs (ys ++ (p, r) ∷ zs))
    → NotIn d (items (ys ++ (p, r) ∷ zs))
    → IsList s (ys ++ (p, r) ∷ zs)
    → s.size + 1 < 2 ^ 31
    → let xs = ys ++ (p, r) ∷ (fresh, d) ∷ zs in
      Yields s ListError.ok xs xs (insert_behind fresh r s)
unfolding insert_behind update
insert_behind_lem {s} fresh d r ys p [] ne live at out new is fits =
    let m = middle s.cells null null ys p r [] is.chain in
    let f = fresh_apart s fresh d p r live ys [] is out new in
    record {
      store = record s {
        tail = fresh;
        cells = linked_last s.cells p r (last_or null ys) fresh d;
        size = s.size + 1;
      };
      result = rw (
        list_find_pos-present r ys p [] ne is,
        ne→== p null m.0,
        link_after-last s fresh d p r (last_or null ys) live m.0 (λ e. f.1 (sym e)) at
            (eq→== p s.tail (sym (tail_is_last ys p r [] is))) m.1,
        lt→ltb (s.size + 1) (2 ^ 31) fits,
      );
      list = Inserted-last s fresh d p r live ys is out new;
      same =
          λ a o. ground (arith, NotIn-of_append a (ptrs ys) (p ∷ fresh ∷ []) (rw ptrs-append at o));
    }
insert_behind_lem {s} fresh d r ys p ((q, e) ∷ zs) ne live at out new is fits =
    let rest : Cells = (q, e) ∷ zs in
    let m = middle s.cells null null ys p r rest is.chain in
    let f = fresh_apart s fresh d p r live ys rest is out new in
    record {
      store = record s {
        cells = linked_between s.cells p r (last_or null ys) fresh d q e (first_or null zs);
        size = s.size + 1;
      };
      result = rw (
        list_find_pos-present r ys p rest ne is,
        ne→== p null m.0,
        link_after-between s fresh d p r (last_or null ys) live m.0 (λ e. f.1 (sym e)) at q e
            (first_or null zs) (not_tail ys p r (q, e) zs is) m.3.0 (apart_after ys p r rest is).0
            (λ h. f.2.0 (sym h)) m.1 m.3.1,
        lt→ltb (s.size + 1) (2 ^ 31) fits,
      );
      list = Inserted-between s fresh d p r live ys q e zs is out new;
      same = λ a o.
          ground
            (arith, NotIn-of_append a (ptrs ys) (p ∷ fresh ∷ q ∷ ptrs zs) (rw ptrs-append at o));
    }

-- `list_insert` of data that a well-formed list does not hold, with a reference in the list that is
-- not NULL, an address that is not in use, and fewer than 2 ^ 31 - 1 elements, returns no error, puts the data directly behind the
-- reference, and leaves the memory outside the list as it was.
pub list_insert-behind :
    {s : Store} (fresh d r : Ptr) (ys : Cells) (p : Ptr) (zs : Cells)
    → r ≢ null
    → fresh ≢ null
    → s.cells fresh ≡ none
    → NotIn d (items (ys ++ (p, r) ∷ zs))
    → IsList s (ys ++ (p, r) ∷ zs)
    → s.size + 1 < 2 ^ 31
    → let xs = ys ++ (p, r) ∷ (fresh, d) ∷ zs in
      Yields s ListError.ok xs xs (list_insert fresh d r s)
unfolding list_insert update
list_insert-behind {s} fresh d r ys p zs ne live unused new is fits =
    let xs : Cells = ys ++ (p, r) ∷ zs in
    let out : NotIn fresh (ptrs xs) = NotIn-of_unused s.cells fresh null null xs unused is.chain in
    let y =
      insert_behind_lem fresh d r ys p zs ne live (ground arith) out new
        (IsList-update fresh (some (node d null null)) xs out is) fits in
    rw
      (
        has_member-absent d is new,
        ne→== fresh null live,
        ne→== s.size 0 (omega (arith, is.size_eq, length-append ys ((p, r) ∷ zs))),
      )
      (record {
        store = y.store;
        result = y.result;
        list = y.list;
        same = λ a o.
            y.same a o
            ∙ ground (
              arith,
              (NotIn-of_append a (ptrs ys) (p ∷ fresh ∷ ptrs zs) (rw ptrs-append at o)).1.1.0,
            );
      })

-- On an empty list `list_insert` ignores the reference.
pub list_insert-nil :
    {s : Store} (fresh d r : Ptr)
    → fresh ≢ null
    → IsList s []
    → let xs : Cells = (fresh, d) ∷ [] in Yields s ListError.ok xs xs (list_insert fresh d r s)
unfolding list_insert update
list_insert-nil {s} fresh d r live is =
    rw (has_member-absent d is tt, ne→== fresh null live, eq→== s.size 0 is.size_eq)
      (record {
        store = record {
          size = 1;
          head = fresh;
          tail = fresh;
          cells = update s.cells fresh (some (node d null null));
        };
        result = refl;
        list = record {
          size_eq = refl;
          head_eq = refl;
          tail_eq = refl;
          chain = (live, ground arith, tt);
          apart = (tt, tt);
          unique = (tt, tt);
        };
        same = λ a o. ground (arith, o.0);
      })

-- The errors of `list_insert`: data that the list holds, no memory, and a reference that the list
-- does not hold. The list and the memory stay as they were.
pub list_insert-present :
    {s : Store} (fresh d r : Ptr) (ys : Cells) (p : Ptr) (zs : Cells)
    → d ≢ null
    → IsList s (ys ++ (p, d) ∷ zs)
    → list_insert fresh d r s ≡ ok element_already_in_list s
unfolding list_insert
list_insert-present fresh d r ys p zs ne is = rw (has_member-present d ys p zs ne is)

pub list_insert-no_memory :
    {s : Store} {xs : Cells} (d r : Ptr)
    → NotIn d (items xs)
    → IsList s xs
    → list_insert null d r s ≡ ok insufficient_memory s
unfolding list_insert
list_insert-no_memory d r new is = rw (has_member-absent d is new)

pub list_insert-no_reference :
    {s : Store} (fresh d r : Ptr) (c : Ptr × Ptr) (xs : Cells)
    → fresh ≢ null
    → s.cells fresh ≡ none
    → NotIn d (items (c ∷ xs))
    → NotIn r (items (c ∷ xs))
    → IsList s (c ∷ xs)
    → Yields s element_not_in_list [] (c ∷ xs) (list_insert fresh d r s)
unfolding list_insert insert_behind update
list_insert-no_reference {s} fresh d r c xs live unused new out is =
    let apart = NotIn-of_unused s.cells fresh null null (c ∷ xs) unused is.chain in
    let is₁ = IsList-update fresh (some (node d null null)) (c ∷ xs) apart is in
    rw
      (
        has_member-absent d is new,
        ne→== fresh null live,
        ne→== s.size 0 (omega (arith, is.size_eq)),
        list_find_pos-absent r is₁ out,
        free-ok (record s { cells = update s.cells fresh (some (node d null null)) }) fresh
            (node d null null) live (ground arith),
      )
      (record {
        store = record s {
          cells = update (update s.cells fresh (some (node d null null))) fresh none;
        };
        result = refl;
        list = IsList-update fresh none (c ∷ xs) apart is₁;
        same = λ a o. ground arith;
      })
