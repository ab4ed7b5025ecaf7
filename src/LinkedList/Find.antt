-- ===== src/LinkedList/Find.antt =====
-- `list_findPos` of list/list.c, and what is read off its answer.
use leipocode.Base.{
  ℕ, zero, suc, ◌+◌, ◌<◌, ◌≡◌, refl, sym, ap, subst, ◌≢◌, ◌⊎◌, inl, inr, true, false, Option, none,
  some, [], ◌∷◌, ◌++◌, arith, ◌∙◌, ◌==◌, length, ==→eq, ne→==, eq→==, Bool-cases, length-append,
}
use leipocode.LinkedList.Memory.{
  Ptr, null, Node, node, Store, ok, update, load, set_next, set_prev, free,
}
use leipocode.LinkedList.Chain.{
  Cells, ptrs, items, first_or, last_or, NotIn, Distinct, Chain, IsList, first_or-append,
  Chain-of_append, last_or-append, ptrs-append, items-append, Distinct-of_middle, NotIn-of_append,
}
use leipocode.LinkedList.{find_loop, list_find_pos, list_has_member, list_next_data}

module _ (s : Store) (p : Ptr) (n : Node) (live : p ≢ null) (at : s.cells p ≡ some n) where
  pub load-ok : load p s ≡ ok n s
  unfolding load
  load-ok = rw (ne→== p null live, at)

  pub set_next-ok :
      (q : Ptr)
      → set_next p q s
        ≡ ok tt (record s { cells = update s.cells p (some (record n { next = q })) })
  unfolding set_next
  set_next-ok q = rw load-ok

  pub set_prev-ok :
      (q : Ptr)
      → set_prev p q s
        ≡ ok tt (record s { cells = update s.cells p (some (record n { prev = q })) })
  unfolding set_prev
  set_prev-ok q = rw load-ok

  pub free-ok : free p s ≡ ok tt (record s { cells = update s.cells p none })
  unfolding free
  free-ok = rw load-ok

-- Where `d` stands first in the list.
pub record Split (d : Ptr) (xs : Cells) : Type 0 where
  pub before : Cells
  pub pos : Ptr
  pub after : Cells
  pub whole : xs ≡ before ++ (pos, d) ∷ after
  pub first : NotIn d (items before)

pub locate : (d : Ptr) (xs : Cells) → NotIn d (items xs) ⊎ Split d xs
locate d [] = inl tt
locate d ((p, e) ∷ xs) = elim (Bool-cases (e == d)) [
  | inl hit ↦ inr (record {
    before = [];
    pos = p;
    after = xs;
    whole = ap (λ x. (p, x) ∷ xs) (==→eq e d hit);
    first = tt;
  })
  | inr miss ↦ elim (locate d xs) [
    | inl out ↦ inl (ground arith, out)
    | inr f ↦ inr (record {
      before = (p, e) ∷ f.before;
      pos = f.pos;
      after = f.after;
      whole = ap (λ l. (p, e) ∷ l) f.whole;
      first = (ground arith, f.first);
    })
  ]
]

find_loop-absent :
    (d b : Ptr) (s : Store) (k : ℕ) (xs : Cells)
    → Chain s.cells b xs null
    → NotIn d (items xs)
    → length xs < k
    → find_loop k d (first_or null xs) s ≡ ok null s
unfolding find_loop
find_loop-absent d b s zero xs c out fuel = absurd (omega arith)
find_loop-absent d b s (suc k) [] c out fuel = refl
find_loop-absent d b s (suc k) ((p, e) ∷ xs) c out fuel =
    rw (ne→== p null c.0, load-ok s p _ c.0 c.1, ne→== e d (λ h. out.0 (sym h)))
      (find_loop-absent d p s k xs c.2 out.1 (omega arith))

find_loop-present :
    (d b : Ptr) (s : Store) (k : ℕ) (ys : Cells) (p : Ptr) (zs : Cells)
    → Chain s.cells b (ys ++ (p, d) ∷ zs) null
    → NotIn d (items ys)
    → length ys < k
    → find_loop k d (first_or null (ys ++ (p, d) ∷ zs)) s ≡ ok p s
unfolding find_loop
find_loop-present d b s zero ys p zs c out fuel = absurd (omega arith)
find_loop-present d b s (suc k) [] p zs c out fuel =
    rw (ne→== p null c.0, load-ok s p _ c.0 c.1, eq→== d d refl)
find_loop-present d b s (suc k) ((q, e) ∷ ys) p zs c out fuel =
    rw (ne→== q null c.0, load-ok s q _ c.0 c.1, ne→== e d (λ h. out.0 (sym h)))
      (find_loop-present d q s k ys p zs c.2 out.1 (omega arith))

-- The search answers NULL on data that the list does not hold, and changes nothing.
pub list_find_pos-absent :
    (d : Ptr) {s : Store} {xs : Cells}
    → IsList s xs
    → NotIn d (items xs)
    → list_find_pos d s ≡ ok null s
unfolding list_find_pos
list_find_pos-absent d {s} {xs} is out = elim (Bool-cases (d == null)) [
  | inl e ↦ rw e
  | inr e ↦ rw e (
      subst (λ q. find_loop (s.size + 1) d q s ≡ ok null s) (sym is.head_eq)
        (find_loop-absent d null s (s.size + 1) xs is.chain out (omega (arith, is.size_eq))))
]

-- A data pointer stands in the list only once.
pub unique_before :
    {s : Store} (ys : Cells) (p d : Ptr) (zs : Cells)
    → IsList s (ys ++ (p, d) ∷ zs)
    → NotIn d (items ys)
unique_before ys p d zs is =
    (NotIn-of_append d (items ys) (items zs)
      (Distinct-of_middle d (items ys) (items zs)
        (subst Distinct (items-append ys ((p, d) ∷ zs)) is.unique)).0).0

-- On data that the list holds the search answers with its node, and changes nothing.
pub list_find_pos-present :
    (d : Ptr) {s : Store} (ys : Cells) (p : Ptr) (zs : Cells)
    → d ≢ null
    → IsList s (ys ++ (p, d) ∷ zs)
    → list_find_pos d s ≡ ok p s
unfolding list_find_pos
list_find_pos-present d {s} ys p zs ne is = rw (ne→== d null ne) (
    subst (λ q. find_loop (s.size + 1) d q s ≡ ok p s) (sym is.head_eq)
      (find_loop-present d null s (s.size + 1) ys p zs is.chain (unique_before ys p d zs is)
        (omega (arith, is.size_eq, length-append ys ((p, d) ∷ zs)))))

pub null_is_absent : {s : Store} → list_find_pos null s ≡ ok null s
unfolding list_find_pos
null_is_absent = refl

-- The live node in the middle of a chain.
pub middle :
    (h : Ptr → Option Node) (b e : Ptr) (ys : Cells) (p d : Ptr) (zs : Cells)
    → Chain h b (ys ++ (p, d) ∷ zs) e
    → (p ≢ null)
      × (h p ≡ some (node d (first_or e zs) (last_or b ys)))
      × Chain h b ys p
      × Chain h p zs e
middle h b e ys p d zs c =
    let (l, r) = Chain-of_append h b e ys ((p, d) ∷ zs) c in (r.0, r.1, l, r.2)

pub has_member-absent :
    (d : Ptr) {s : Store} {xs : Cells}
    → IsList s xs
    → NotIn d (items xs)
    → list_has_member d s ≡ ok false s
unfolding list_has_member
has_member-absent d is out = rw (list_find_pos-absent d is out)

pub has_member-present :
    (d : Ptr) {s : Store} (ys : Cells) (p : Ptr) (zs : Cells)
    → d ≢ null
    → IsList s (ys ++ (p, d) ∷ zs)
    → list_has_member d s ≡ ok true s
unfolding list_has_member
has_member-present d {s} ys p zs ne is = rw (
  list_find_pos-present d ys p zs ne is,
  ne→== p null (middle s.cells null null ys p d zs is.chain).0,
)

-- The last cell of a chain is not the one in front of it, and the first is not the one behind.
last_or-ne :
    (p b : Ptr) (c : Ptr × Ptr) (xs : Cells) → NotIn p (ptrs (c ∷ xs)) → last_or b (c ∷ xs) ≢ p
last_or-ne p b (q, d) [] out e = out.0 (sym e)
last_or-ne p b (q, d) (c ∷ xs) out e = last_or-ne p q c xs out.1 e

-- In a well-formed list a node is the tail exactly when nothing follows it, and the head exactly
-- when nothing precedes it.
module _ {s : Store} (ys : Cells) (p d : Ptr) (zs : Cells) (is : IsList s (ys ++ (p, d) ∷ zs)) where
  pub node_apart : NotIn p (ptrs ys ++ ptrs zs) × Distinct (ptrs ys ++ ptrs zs)
  node_apart =
      Distinct-of_middle p (ptrs ys) (ptrs zs)
        (subst Distinct (ptrs-append ys ((p, d) ∷ zs)) is.apart)

  pub apart_before : NotIn p (ptrs ys)
  apart_before = (NotIn-of_append p (ptrs ys) (ptrs zs) node_apart.0).0

  pub apart_after : NotIn p (ptrs zs)
  apart_after = (NotIn-of_append p (ptrs ys) (ptrs zs) node_apart.0).1

  pub tail_is_last : s.tail ≡ last_or p zs
  tail_is_last = is.tail_eq ∙ last_or-append null ys ((p, d) ∷ zs)

  pub head_is_first : s.head ≡ first_or p ys
  head_is_first = is.head_eq ∙ first_or-append null ys ((p, d) ∷ zs)

pub not_tail :
    {s : Store} (ys : Cells) (p d : Ptr) (c : Ptr × Ptr) (zs : Cells)
    → IsList s (ys ++ (p, d) ∷ c ∷ zs)
    → (p == s.tail) ≡ false
not_tail {s} ys p d c zs is = ne→== p s.tail λ e.
    last_or-ne p p c zs (apart_after ys p d (c ∷ zs) is)
      (sym (tail_is_last ys p d (c ∷ zs) is) ∙ sym e)

pub not_head :
    {s : Store} (c : Ptr × Ptr) (ys : Cells) (p d : Ptr) (zs : Cells)
    → IsList s (c ∷ ys ++ (p, d) ∷ zs)
    → (p == s.head) ≡ false
not_head {s} c ys p d zs is =
    ne→== p s.head λ e. (apart_before (c ∷ ys) p d zs is).0 (e ∙ head_is_first (c ∷ ys) p d zs is)

-- The data of the first cell, NULL if there is none.
abbrev pub first_item : Cells → Ptr
first_item [] = null
first_item ((_, d) ∷ _) = d

abbrev pub last_item_from : Ptr → Cells → Ptr
last_item_from d [] = d
last_item_from d ((_, e) ∷ xs) = last_item_from e xs

-- `list_nextData` answers with the data that follows in the list, NULL behind the last, and
-- changes nothing.
pub list_next_data_lem :
    (d : Ptr) {s : Store} (ys : Cells) (p : Ptr) (zs : Cells)
    → d ≢ null
    → IsList s (ys ++ (p, d) ∷ zs)
    → list_next_data d s ≡ ok (first_item zs) s
unfolding list_next_data
list_next_data_lem d {s} ys p [] ne is = rw (
  list_find_pos-present d ys p [] ne is,
  ne→== p null (middle s.cells null null ys p d [] is.chain).0,
  eq→== p s.tail (sym (tail_is_last ys p d [] is)),
)
list_next_data_lem d {s} ys p ((q, e) ∷ zs) ne is =
    let m = middle s.cells null null ys p d ((q, e) ∷ zs) is.chain in
    rw (
      list_find_pos-present d ys p ((q, e) ∷ zs) ne is,
      ne→== p null m.0,
      not_tail ys p d (q, e) zs is,
      load-ok s p _ m.0 m.1,
      load-ok s q _ m.3.0 m.3.1,
    )
