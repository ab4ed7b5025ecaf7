-- ===== src/LinkedList/Ends.antt =====
-- The last node of a chain of list/list.c, and `list_prevData`, which reads it.
use leipocode.Base.{ℕ, ◌≡◌, sym, ◌≢◌, Option, some, List, [], ◌∷◌, ◌++◌, arith, ne→==, eq→==}
use leipocode.LinkedList.Memory.{Ptr, null, Node, node, Store, ok, update}
use leipocode.LinkedList.Chain.{
  Cells, ptrs, last_or, NotIn, Distinct, Chain, IsList, NotIn-of_append,
}
use leipocode.LinkedList.Find.{
  list_find_pos-present, load-ok, middle, not_head, node_apart, last_item_from,
}
use leipocode.LinkedList.{list_prev_data}

-- The last node of the chain `c ∷ xs`, and what giving it another successor makes of the chain.
pub record Last (h : Ptr → Option Node) (b : Ptr) (c : Ptr × Ptr) (xs : Cells) (e : Ptr)
    : Type 0 where
  pub back : Ptr
  pub live : last_or b (c ∷ xs) ≢ null
  pub at : h (last_or b (c ∷ xs)) ≡ some (node (last_item_from c.1 xs) e back)
  pub outside : (a : Ptr) → NotIn a (ptrs (c ∷ xs)) → a ≢ last_or b (c ∷ xs)
  pub relink :
      (e' : Ptr)
      → Chain
          (update h (last_or b (c ∷ xs)) (some (node (last_item_from c.1 xs) e' back)))
          b
          (c ∷ xs)
          e'

pub Last-node :
    (h : Ptr → Option Node) (b : Ptr) (c : Ptr × Ptr) (xs : Cells) (e : Ptr)
    → Distinct (ptrs (c ∷ xs))
    → Chain h b (c ∷ xs) e
    → Last h b c xs e
unfolding update
Last-node h b (p, d) [] e apart k = record {
  back = b;
  live = k.0;
  at = k.1;
  outside = λ a out. out.0;
  relink = λ e'. (k.0, ground arith, tt);
}
Last-node h b (p, d) ((q, x) ∷ xs) e apart k =
    let l = Last-node h p (q, x) xs e apart.1 k.2 in
    record {
      back = l.back;
      live = l.live;
      at = l.at;
      outside = λ a out. l.outside a out.1;
      relink = λ e'. (k.0, ground (arith, l.outside p apart.0), l.relink e');
    }

-- The data of the last cell, NULL if there is none.
abbrev pub last_item : Cells → Ptr
last_item [] = null
last_item ((_, d) ∷ xs) = last_item_from d xs

-- What stands behind a chain in a list without repetition is none of it, and not its last node.
pub NotIn-last :
    (b : Ptr) (c : Ptr × Ptr) (xs : Cells) (l : List Ptr)
    → Distinct (ptrs (c ∷ xs) ++ l)
    → NotIn (last_or b (c ∷ xs)) l
NotIn-last b (p, d) [] l h = h.0
NotIn-last b (p, d) (c ∷ xs) l h = NotIn-last p c xs l h.1

pub Distinct-of_append : (xs ys : List ℕ) → Distinct (xs ++ ys) → Distinct xs
Distinct-of_append [] ys h = tt
Distinct-of_append (x ∷ xs) ys h = ((NotIn-of_append x xs ys h.0).0, Distinct-of_append xs ys h.1)

-- `list_prevData` answers with the data that stands in front in the list, NULL before the first,
-- and changes nothing.
pub list_prev_data_lem :
    (d : Ptr) {s : Store} (ys : Cells) (p : Ptr) (zs : Cells)
    → d ≢ null
    → IsList s (ys ++ (p, d) ∷ zs)
    → list_prev_data d s ≡ ok (last_item ys) s
unfolding list_prev_data
list_prev_data_lem d {s} [] p zs ne is = rw (
  list_find_pos-present d [] p zs ne is,
  ne→== p null is.chain.0,
  eq→== p s.head (sym is.head_eq),
)
list_prev_data_lem d {s} (c ∷ ys) p zs ne is =
    let m = middle s.cells null null (c ∷ ys) p d zs is.chain in
    let l =
      Last-node s.cells null c ys p
        (Distinct-of_append (ptrs (c ∷ ys)) (ptrs zs) (node_apart (c ∷ ys) p d zs is).1) m.2 in
    rw (
      list_find_pos-present d (c ∷ ys) p zs ne is,
      ne→== p null m.0,
      not_head c ys p d zs is,
      load-ok s p _ m.0 m.1,
      load-ok s (last_or null (c ∷ ys)) _ l.live l.at,
    )
