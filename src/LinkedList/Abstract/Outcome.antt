-- ===== src/LinkedList/Abstract/Outcome.antt =====
-- The outcome of a call of list/list.c beside that of the operation on the sequence.
use leipocode.Base.{◌≡◌, sym, ap, subst, ◌≢◌, true, List, [], ◌∷◌, ◌++◌, ◌∙◌, arith, ne→==}
use leipocode.LinkedList.Memory.{Ptr, null, Store, ok}
use leipocode.LinkedList.Chain.{
  Cells, items, NotIn, Yields, items-append, NotIn-append, NotIn-of_append,
}
use leipocode.LinkedList.{ListError}
use leipocode.LinkedList.Abstract.Lemmas.{
  member-absent, member-middle, insert_after-middle, erase-middle,
}
use leipocode.LinkedList.Abstract.{Holds, member, insert_after, Op, insert, remove, call, spec}

-- A call on the store, and what it makes of the sequence.
pub record Refines (o : Op) (s : Store) (l : List Ptr) : Type 0 where
  pub store : Store
  pub result : call o s ≡ ok (spec o l).0 store
  pub holds : Holds store (spec o l).1

-- From the outcome of a command to that of the call.
pub refines :
    (o : Op) {s : Store} (l : List Ptr) (code : ListError) (scope ys : Cells)
    → spec o l ≡ (code, items ys)
    → NotIn null (items ys)
    → Yields s code scope ys (call o s)
    → Refines o s l
refines o {s} l code scope ys e full y = record {
  store = y.store;
  result = y.result ∙ ap (λ (r : ListError × List Ptr). ok r.0 y.store) (sym e);
  holds = record {
    cells = ys;
    list = y.list;
    data_eq = sym (ap (λ (r : ListError × List Ptr). r.1) e);
    full = full;
  };
}

pub unchanged :
    (o : Op) {s : Store} (l : List Ptr) (code : ListError)
    → Holds s l
    → spec o l ≡ (code, l)
    → call o s ≡ ok code s
    → Refines o s l
unchanged o {s} l code h e run = record {
  store = s;
  result = run ∙ ap (λ (r : ListError × List Ptr). ok r.0 s) (sym e);
  holds = subst (Holds s) (sym (ap (λ (r : ListError × List Ptr). r.1) e)) h;
}

-- NULL is not in a sequence that one more piece of data joins.
pub full_with :
    (ys zs : Cells) (d fresh : Ptr)
    → d ≢ null
    → NotIn null (items (ys ++ zs))
    → NotIn null (items (ys ++ (fresh, d) ∷ zs))
full_with ys zs d fresh ne full =
    let (a, b) =
      NotIn-of_append null (items ys) (items zs) (subst (NotIn null) (items-append ys zs) full) in
    subst (NotIn null) (sym (items-append ys ((fresh, d) ∷ zs)))
      (NotIn-append null (items ys) (d ∷ items zs) a ((λ e. ne (sym e)), b))

pub full_without :
    (ys zs : Cells) (c : Ptr × Ptr)
    → NotIn null (items (ys ++ c ∷ zs))
    → NotIn null (items (ys ++ zs))
full_without ys zs c full =
    let (a, b) =
      NotIn-of_append null (items ys) (c.1 ∷ items zs)
        (subst (NotIn null) (items-append ys (c ∷ zs)) full) in
    subst (NotIn null) (sym (items-append ys zs)) (NotIn-append null (items ys) (items zs) a b.1)

pub present :
    (d : Ptr) (ys : Cells) (p : Ptr) (zs : Cells) → member d (items (ys ++ (p, d) ∷ zs)) ≡ true
present d ys p zs = rw items-append (member-middle d (items ys) (items zs))

pub spec-remove :
    (d : Ptr) (ys : Cells) (p : Ptr) (zs : Cells)
    → NotIn d (items ys)
    → spec (remove d) (items (ys ++ (p, d) ∷ zs)) ≡ (ListError.ok, items (ys ++ zs))
unfolding spec
spec-remove d ys p zs first =
    rw (present d ys p zs, items-append, erase-middle d (items ys) (items zs) first, items-append)

pub spec-insert :
    (fresh d r : Ptr) (ys : Cells) (p : Ptr) (zs : Cells)
    → fresh ≢ null
    → NotIn d (items (ys ++ (p, r) ∷ zs))
    → NotIn r (items ys)
    → spec (insert fresh d r) (items (ys ++ (p, r) ∷ zs))
      ≡ (ListError.ok, items (ys ++ (p, r) ∷ (fresh, d) ∷ zs))
unfolding spec
spec-insert fresh d r [] p zs live new first =
    rw (member-absent d _ new, ne→== fresh null live)
      (ground (arith, member-middle r [] (items zs), insert_after-middle d r [] (items zs) tt))
spec-insert fresh d r ((q, x) ∷ ys) p zs live new first =
    rw (member-absent d _ new, ne→== fresh null live, present r ((q, x) ∷ ys) p zs)
      (ap (λ l. (ListError.ok, l))
        (ap (insert_after d r) (items-append ((q, x) ∷ ys) ((p, r) ∷ zs))
          ∙ insert_after-middle d r (x ∷ items ys) (items zs) first
          ∙ sym (items-append ((q, x) ∷ ys) ((p, r) ∷ (fresh, d) ∷ zs))))
