-- ===== src/LinkedList/Link.antt =====
-- The stores by which `list_insert` of list/list.c links a new node, and the memory behind them.
use leipocode.Base.{
  ◌+◌, ◌≡◌, sym, ◌≢◌, true, false, Option, some, [], ◌∷◌, ◌++◌, arith, ◌∙◌, ◌==◌, length,
  length-append,
}
use leipocode.LinkedList.Memory.{Ptr, null, Node, node, Store, ok, update, load, set_next, set_prev}
use leipocode.LinkedList.Chain.{
  Cells, ptrs, items, first_or, last_or, NotIn, Distinct, IsList, Chain-update, Chain-append,
  Distinct-behind, Distinct-of_middle, ptrs-append, items-append, NotIn-of_append, first_or-append,
  last_or-append,
}
use leipocode.LinkedList.Find.{middle, apart_before, apart_after, node_apart}
use leipocode.LinkedList.{link_after}

-- What `link_after` makes of the memory, with nothing and with the node `q` behind `p`.
abbrev pub linked_last : (Ptr → Option Node) → (p r b fresh d : Ptr) → Ptr → Option Node
linked_last h p r b fresh d =
    update (update h p (some (node r fresh b))) fresh (some (node d null p))

abbrev pub linked_between : (Ptr → Option Node) → (p r b fresh d q e next : Ptr) → Ptr → Option Node
linked_between h p r b fresh d q e next =
    let h₁ = update h fresh (some (node d q null)) in
    let h₂ = update h₁ fresh (some (node d q p)) in
    let h₃ = update h₂ q (some (node e next fresh)) in update h₃ p (some (node r fresh b))

module _ (s : Store) (fresh d p r b : Ptr) (ne : fresh ≢ null) (live : p ≢ null) (apart : p ≢ fresh)
    (new_at : s.cells fresh ≡ some (node d null null)) where
  pub link_after-last :
      (p == s.tail) ≡ true
      → s.cells p ≡ some (node r null b)
      → link_after p fresh s
        ≡ ok tt (record s { tail = fresh; cells = linked_last s.cells p r b fresh d })
  unfolding link_after load set_next set_prev update
  link_after-last h at = ground arith

  pub link_after-between :
      (q e next : Ptr)
      → (p == s.tail) ≡ false
      → q ≢ null
      → p ≢ q
      → q ≢ fresh
      → s.cells p ≡ some (node r q b)
      → s.cells q ≡ some (node e next p)
      → link_after p fresh s
        ≡ ok tt (record s { cells = linked_between s.cells p r b fresh d q e next })
  unfolding link_after load set_next set_prev update
  link_after-between q e next h live' apart' apart'' at at' = ground arith

-- The memory behind the insertion is the memory of the longer list.
module _ (s : Store) (fresh d p r : Ptr) (ne : fresh ≢ null) (ys : Cells) where
  abbrev pub Inserted : Cells → (tail : Ptr) → (Ptr → Option Node) → Type 0
  Inserted zs tail h =
      IsList (record s { tail = tail; cells = h; size = s.size + 1 })
        (ys ++ (p, r) ∷ (fresh, d) ∷ zs)

  module _ (zs : Cells) (is : IsList s (ys ++ (p, r) ∷ zs))
      (out : NotIn fresh (ptrs (ys ++ (p, r) ∷ zs)))
      (new : NotIn d (items (ys ++ (p, r) ∷ zs))) where
    apart_of_inserted : Distinct (ptrs (ys ++ (p, r) ∷ (fresh, d) ∷ zs))
    apart_of_inserted = rw ptrs-append (
        Distinct-behind fresh p (ptrs ys) (ptrs zs) (rw ptrs-append at out)
          (rw ptrs-append at is.apart))

    unique_of_inserted : Distinct (items (ys ++ (p, r) ∷ (fresh, d) ∷ zs))
    unique_of_inserted = rw items-append (
        Distinct-behind d r (items ys) (items zs) (rw items-append at new)
          (rw items-append at is.unique))

    size_of_inserted : s.size + 1 ≡ length (ys ++ (p, r) ∷ (fresh, d) ∷ zs)
    size_of_inserted = omega (
      arith,
      is.size_eq,
      length-append ys ((p, r) ∷ zs),
      length-append ys ((p, r) ∷ (fresh, d) ∷ zs),
    )

    head_of_inserted : s.head ≡ first_or null (ys ++ (p, r) ∷ (fresh, d) ∷ zs)
    head_of_inserted =
        is.head_eq
        ∙ first_or-append null ys ((p, r) ∷ zs)
        ∙ sym (first_or-append null ys ((p, r) ∷ (fresh, d) ∷ zs))

    pub fresh_apart : NotIn fresh (ptrs ys) × (fresh ≢ p) × NotIn fresh (ptrs zs)
    fresh_apart =
        let (l, r') = NotIn-of_append fresh (ptrs ys) (p ∷ ptrs zs) (rw ptrs-append at out) in
        (l, r'.0, r'.1)

  pub Inserted-last :
      (is : IsList s (ys ++ (p, r) ∷ []))
      → NotIn fresh (ptrs (ys ++ (p, r) ∷ []))
      → NotIn d (items (ys ++ (p, r) ∷ []))
      → Inserted [] fresh (linked_last s.cells p r (last_or null ys) fresh d)
  unfolding update
  Inserted-last is out new =
      let m = middle s.cells null null ys p r [] is.chain in
      let f = fresh_apart [] is out new in
      record {
        size_eq = size_of_inserted [] is out new;
        head_eq = head_of_inserted [] is out new;
        tail_eq = sym (last_or-append null ys ((p, r) ∷ (fresh, d) ∷ []));
        chain =
            Chain-append _ null null ys ((p, r) ∷ (fresh, d) ∷ [])
              (Chain-update _ fresh null p _ ys f.0
                (Chain-update s.cells p null p _ ys (apart_before ys p r [] is) m.2))
              (m.0, ground arith, (ne, ground arith, tt));
        apart = apart_of_inserted [] is out new;
        unique = unique_of_inserted [] is out new;
      }

  pub Inserted-between :
      (q e : Ptr) (zs : Cells) (is : IsList s (ys ++ (p, r) ∷ (q, e) ∷ zs))
      → NotIn fresh (ptrs (ys ++ (p, r) ∷ (q, e) ∷ zs))
      → NotIn d (items (ys ++ (p, r) ∷ (q, e) ∷ zs))
      → Inserted
          ((q, e) ∷ zs)
          s.tail
          (linked_between s.cells p r (last_or null ys) fresh d q e (first_or null zs))
  unfolding update
  Inserted-between q e zs is out new =
      let rest : Cells = (q, e) ∷ zs in
      let m = middle s.cells null null ys p r rest is.chain in
      let f = fresh_apart rest is out new in
      let before = apart_before ys p r rest is in
      let after = apart_after ys p r rest is in
      let q_before = (Distinct-of_middle q (ptrs ys) (ptrs zs) (node_apart ys p r rest is).1).0 in
      let q_out = NotIn-of_append q (ptrs ys) (ptrs zs) q_before in
      record {
        size_eq = size_of_inserted rest is out new;
        head_eq = head_of_inserted rest is out new;
        tail_eq =
            is.tail_eq
            ∙ last_or-append null ys ((p, r) ∷ rest)
            ∙ sym (last_or-append null ys ((p, r) ∷ (fresh, d) ∷ rest));
        chain =
            Chain-append _ null null ys ((p, r) ∷ (fresh, d) ∷ rest)
              (Chain-update _ p null p _ ys before (
                Chain-update _ q null p _ ys q_out.0 (
                  Chain-update _ fresh null p _ ys f.0
                    (Chain-update s.cells fresh null p _ ys f.0 m.2))))
              (
                m.0,
                ground arith,
                (
                  ne,
                  ground arith,
                  (
                    m.3.0,
                    ground arith,
                    Chain-update _ p q null _ zs after.1 (
                        Chain-update _ q q null _ zs q_out.1 (
                          Chain-update _ fresh q null _ zs f.2.1
                            (Chain-update s.cells fresh q null _ zs f.2.1 m.3.2))),
                  ),
                ),
              );
        apart = apart_of_inserted rest is out new;
        unique = unique_of_inserted rest is out new;
      }
