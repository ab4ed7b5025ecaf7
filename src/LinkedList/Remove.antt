-- ===== src/LinkedList/Remove.antt =====
-- `list_remove` of list/list.c.
use leipocode.Base.{
  ◌-◌, ◌≡◌, refl, sym, subst, ◌≢◌, true, false, none, some, [], ◌∷◌, ◌++◌, arith, ◌∙◌, ◌==◌, ne→==,
  eq→==, length-append, append-nil, ◌&&◌,
}
use leipocode.LinkedList.Memory.{Ptr, null, Node, node, Store, Run, ok, update}
use leipocode.LinkedList.Chain.{
  Cells, ptrs, items, first_or, last_or, NotIn, Distinct, Chain, IsList, Yields, Chain-update,
  update-ne, update_self, Chain-append, Distinct-of_middle, ptrs-append, items-append,
  NotIn-of_append, last_or-append,
}
use leipocode.LinkedList.Find.{
  middle, not_tail, not_head, tail_is_last, apart_before, apart_after, node_apart,
  list_find_pos-present, list_find_pos-absent, free-ok, last_item_from, null_is_absent,
}
use leipocode.LinkedList.Ends.{Last-node, NotIn-last, Distinct-of_append}
use leipocode.LinkedList.{ListError, element_not_in_list, unlink, list_remove}
use leipocode.LinkedList.Unlink.{unlink-first, unlink-last, unlink-between}

-- The run ends well, without the node `p`, which is free again.
pub record Removed (s : Store) (p : Ptr) (before after : Cells) (out : Run ListError) : Type 0 where
  pub yields : Yields s ListError.ok before after out
  pub freed : yields.store.cells p ≡ none

remove-only :
    {s : Store} (p d : Ptr)
    → d ≢ null
    → IsList s ((p, d) ∷ [])
    → Removed s p ((p, d) ∷ []) [] (list_remove d s)
unfolding list_remove update
remove-only {s} p d ne is =
    rw
      (
        list_find_pos-present d [] p [] ne is,
        ne→== p null is.chain.0,
        eq→== p s.head (sym is.head_eq),
        eq→== p s.tail (sym is.tail_eq),
        free-ok (record { size = 0; head = null; tail = null; cells = s.cells }) p
            (node d null null) is.chain.0 is.chain.1,
      )
      (record {
        yields = record {
          store = record { size = 0; head = null; tail = null; cells = update s.cells p none };
          result = refl;
          list = record {
            size_eq = refl;
            head_eq = refl;
            tail_eq = refl;
            chain = tt;
            apart = tt;
            unique = tt;
          };
          same = λ a o. ground (arith, o.0);
        };
        freed = ground arith;
      })

module _ {s : Store} (d p : Ptr) (ne : d ≢ null) (ys zs : Cells)
    (is : IsList s (ys ++ (p, d) ∷ zs)) where
  remove_run :
      (t : Store) (n : Node)
      → ((p == s.head) && (p == s.tail)) ≡ false
      → unlink p s ≡ ok tt t
      → t.cells p ≡ some n
      → list_remove d s
        ≡ ok ListError.ok (record t { size = t.size - 1; cells = update t.cells p none })
  unfolding list_remove
  remove_run t n h run at =
      let live = (middle s.cells null null ys p d zs is.chain).0 in
      rw (
        list_find_pos-present d ys p zs ne is,
        ne→== p null live,
        h,
        run,
        free-ok (record t { size = t.size - 1 }) p n live at,
      )

  -- What the cases have in common.
  removed :
      (t : Store) (n : Node)
      → ((p == s.head) && (p == s.tail)) ≡ false
      → unlink p s ≡ ok tt t
      → t.cells p ≡ some n
      → t.size ≡ s.size
      → t.head ≡ first_or null (ys ++ zs)
      → t.tail ≡ last_or null (ys ++ zs)
      → Chain t.cells null (ys ++ zs) null
      → ((a : Ptr) → NotIn a (ptrs ys ++ p ∷ ptrs zs) → t.cells a ≡ s.cells a)
      → Removed s p (ys ++ (p, d) ∷ zs) (ys ++ zs) (list_remove d s)
  unfolding update
  removed t n h run at size head tail chain same = record {
    yields = record {
      store = record t { size = t.size - 1; cells = update t.cells p none };
      result = remove_run t n h run at;
      list = record {
        size_eq = omega (arith, is.size_eq, length-append ys ((p, d) ∷ zs), length-append ys zs);
        head_eq = head;
        tail_eq = tail;
        chain =
            Chain-update t.cells p null null none (ys ++ zs)
              (subst (NotIn p) (sym (ptrs-append ys zs)) (node_apart ys p d zs is).0) chain;
        apart = subst Distinct (sym (ptrs-append ys zs)) (node_apart ys p d zs is).1;
        unique =
            subst Distinct (sym (items-append ys zs))
              (Distinct-of_middle d (items ys) (items zs)
                (subst Distinct (items-append ys ((p, d) ∷ zs)) is.unique)).1;
      };
      same = λ a o.
          let o' = subst (NotIn a) (ptrs-append ys ((p, d) ∷ zs)) o in
          ground (arith, same a o', (NotIn-of_append a (ptrs ys) (p ∷ ptrs zs) o').1.0);
    };
    freed = ground arith;
  }

-- The first of several.
remove-first :
    {s : Store} (d p q e : Ptr) (zs : Cells)
    → d ≢ null
    → IsList s ((p, d) ∷ (q, e) ∷ zs)
    → Removed s p ((p, d) ∷ (q, e) ∷ zs) ((q, e) ∷ zs) (list_remove d s)
unfolding update
remove-first {s} d p q e zs ne is =
    let c = is.chain in
    let rest : Cells = (q, e) ∷ zs in
    let at_head : (p == s.head) ≡ true = eq→== p s.head (sym is.head_eq) in
    removed d p ne [] rest is
      (record s { head = q; cells = update s.cells q (some (node e (first_or null zs) null)) })
      (node d q null) (rw (at_head, not_tail [] p d (q, e) zs is))
      (unlink-first s p d c.0 q e (first_or null zs) at_head c.2.0 c.1 c.2.1)
      (ground (arith, is.apart.0.0)) refl refl is.tail_eq
      (c.2.0, ground arith, Chain-update s.cells q q null _ zs is.apart.1.0 c.2.2)
      (λ a o. ground (arith, o.1.0))

-- The last of several.
remove-last :
    {s : Store} (d p : Ptr) (c : Ptr × Ptr) (ys : Cells)
    → d ≢ null
    → IsList s (c ∷ ys ++ (p, d) ∷ [])
    → Removed s p (c ∷ ys ++ (p, d) ∷ []) (c ∷ ys ++ []) (list_remove d s)
unfolding update
remove-last {s} d p c ys ne is =
    let m = middle s.cells null null (c ∷ ys) p d [] is.chain in
    let at_tail : (p == s.tail) ≡ true = eq→== p s.tail (sym (tail_is_last (c ∷ ys) p d [] is)) in
    let l =
      Last-node s.cells null c ys p
        (Distinct-of_append (ptrs (c ∷ ys)) [] (node_apart (c ∷ ys) p d [] is).1) m.2 in
    let q = last_or null (c ∷ ys) in
    let n = node (last_item_from c.1 ys) null l.back in
    removed d p ne (c ∷ ys) [] is (record s { tail = q; cells = update s.cells q (some n) })
      (node d null q) (rw (not_head c ys p d [] is))
      (unlink-last s p d m.0 q (last_item_from c.1 ys) l.back (not_head c ys p d [] is) at_tail
        l.live m.1 l.at)
      (ground (arith, l.outside p (apart_before (c ∷ ys) p d [] is))) refl is.head_eq
      (rw append-nil) (rw append-nil (l.relink null))
      (λ a o. ground (arith, l.outside a (NotIn-of_append a (ptrs (c ∷ ys)) (p ∷ []) o).0))

-- A node between two others.
remove-between :
    {s : Store} (d p : Ptr) (c : Ptr × Ptr) (ys : Cells) (r f : Ptr) (zs : Cells)
    → d ≢ null
    → IsList s (c ∷ ys ++ (p, d) ∷ (r, f) ∷ zs)
    → Removed s p (c ∷ ys ++ (p, d) ∷ (r, f) ∷ zs) (c ∷ ys ++ (r, f) ∷ zs) (list_remove d s)
unfolding update
remove-between {s} d p c ys r f zs ne is =
    let rest : Cells = (r, f) ∷ zs in
    let m = middle s.cells null null (c ∷ ys) p d rest is.chain in
    let q = last_or null (c ∷ ys) in
    let others = (node_apart (c ∷ ys) p d rest is).1 in
    let r_out =
      NotIn-of_append r (ptrs (c ∷ ys)) (ptrs zs)
        (Distinct-of_middle r (ptrs (c ∷ ys)) (ptrs zs) others).0 in
    let q_out = NotIn-last null c ys (r ∷ ptrs zs) others in
    let h = update s.cells r (some (node f (first_or null zs) q)) in
    let l =
      Last-node h null c ys p (Distinct-of_append (ptrs (c ∷ ys)) (r ∷ ptrs zs) others)
        (Chain-update s.cells r null p _ (c ∷ ys) r_out.0 m.2) in
    let n = node (last_item_from c.1 ys) r l.back in
    let apart = apart_before (c ∷ ys) p d rest is in
    let apart' = apart_after (c ∷ ys) p d rest is in
    removed d p ne (c ∷ ys) rest is (record s { cells = update h q (some n) }) (node d r q)
      (rw (not_head c ys p d rest is))
      (unlink-between s p d m.0 q (last_item_from c.1 ys) l.back r f (first_or null zs)
        (not_head c ys p d rest is) (not_tail (c ∷ ys) p d (r, f) zs is) l.live m.3.0 apart'.0
        q_out.0 m.1 (sym (update-ne s.cells r _ q q_out.0) ∙ l.at) m.3.1)
      (update-ne h q (some n) p (l.outside p apart) ∙ update-ne s.cells r _ p apart'.0 ∙ m.1) refl
      is.head_eq
      (is.tail_eq
        ∙ last_or-append null (c ∷ ys) ((p, d) ∷ rest)
        ∙ sym (last_or-append null (c ∷ ys) rest))
      (Chain-append _ null null (c ∷ ys) rest (l.relink r) (
        m.3.0,
        update-ne h q (some n) r (λ e. q_out.0 (sym e)) ∙ update_self s.cells r _,
        Chain-update _ q r null _ zs q_out.1 (Chain-update _ r r null _ zs r_out.1 m.3.2),
      ))
      (λ a o.
        let (o₁, o₂) = NotIn-of_append a (ptrs (c ∷ ys)) (p ∷ r ∷ ptrs zs) o in
        update-ne h q (some n) a (l.outside a o₁) ∙ update-ne s.cells r _ a o₂.1.0)

-- `list_remove` of data in a well-formed list, not NULL, returns no error, takes it out of the
-- list, frees its node and leaves the memory outside the list as it was; what is left is a
-- well-formed list of the other nodes in their order.
pub list_remove_lem :
    {s : Store} (d : Ptr) (ys : Cells) (p : Ptr) (zs : Cells)
    → d ≢ null
    → IsList s (ys ++ (p, d) ∷ zs)
    → Removed s p (ys ++ (p, d) ∷ zs) (ys ++ zs) (list_remove d s)
list_remove_lem d [] p [] ne is = remove-only p d ne is
list_remove_lem d [] p ((q, e) ∷ zs) ne is = remove-first d p q e zs ne is
list_remove_lem d (c ∷ ys) p [] ne is = remove-last d p c ys ne is
list_remove_lem d (c ∷ ys) p ((r, f) ∷ zs) ne is = remove-between d p c ys r f zs ne is

pub list_remove-absent :
    {s : Store} {xs : Cells} (d : Ptr)
    → NotIn d (items xs)
    → IsList s xs
    → list_remove d s ≡ ok element_not_in_list s
unfolding list_remove
list_remove-absent d out is = rw (list_find_pos-absent d is out)

-- NULL is never found, whatever the list holds.
pub list_remove-null : (s : Store) → list_remove null s ≡ ok element_not_in_list s
unfolding list_remove
list_remove-null s = rw (null_is_absent {s = s})
