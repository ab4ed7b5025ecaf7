-- ===== src/LinkedList/Delete.antt =====
-- `list_delete` of list/list.c.
use leipocode.Base.{
  ℕ, zero, suc, ◌+◌, ◌<◌, ◌≡◌, refl, sym, ap, subst, ◌≢◌, Option, none, List, [], ◌∷◌, arith, ◌∙◌,
  length, ne→==,
}
use leipocode.LinkedList.Memory.{Ptr, null, Node, node, Store, Run, ok, out_of_fuel}
use leipocode.LinkedList.Chain.{Cells, ptrs, items, first_or, NotIn, IsList}
use leipocode.LinkedList.Find.{load-ok}
use leipocode.LinkedList.Append.{list_append-last}
use leipocode.LinkedList.Remove.{list_remove_lem, list_remove-null}
use leipocode.LinkedList.{ListError, delete_loop, list_append, list_delete}

abbrev pub AllFree : (Ptr → Option Node) → List Ptr → Type 0
AllFree h [] = Unit {0}
AllFree h (p ∷ ps) = (h p ≡ none) × AllFree h ps

-- The run ends with an empty list, every node of the old one free, other memory as it was.
pub record Deleted (s : Store) (xs : Cells) (out : Run ListError) : Type 0 where
  pub store : Store
  pub result : out ≡ ok ListError.ok store
  pub empty : IsList store []
  pub freed : AllFree store.cells (ptrs xs)
  pub same : (a : Ptr) → NotIn a (ptrs xs) → store.cells a ≡ s.cells a

delete_loop-Deleted :
    (k : ℕ) {s : Store} (xs : Cells)
    → NotIn null (items xs)
    → IsList s xs
    → length xs < k
    → Deleted s xs (delete_loop k (first_or null xs) s)
unfolding delete_loop
delete_loop-Deleted zero xs full is fuel = absurd (omega arith)
delete_loop-Deleted (suc k) {s} [] full is fuel = record {
  store = s;
  result = refl;
  empty = is;
  freed = tt;
  same = λ a o. refl;
}
delete_loop-Deleted (suc k) {s} ((p, d) ∷ xs) full is fuel =
    let r = list_remove_lem d [] p xs (λ e. full.0 (sym e)) is in
    let t = r.yields.store in
    let rest = delete_loop-Deleted k xs full.1 r.yields.list (omega arith) in
    rw (ne→== p null is.chain.0, load-ok s p _ is.chain.0 is.chain.1, r.yields.result)
      (record {
        store = rest.store;
        result =
            subst (λ q. delete_loop k q t ≡ ok ListError.ok rest.store) (sym r.yields.list.head_eq)
              rest.result;
        empty = rest.empty;
        freed = (rest.same p is.apart.0 ∙ r.freed, rest.freed);
        same = λ a o. rest.same a o.1 ∙ r.yields.same a o;
      })

-- `list_delete` on a well-formed list without NULL data ends within `size + 1` rounds, leaves the
-- empty list, frees every node of the list and leaves all other memory as it was.
pub list_delete_lem :
    {s : Store} (xs : Cells) → NotIn null (items xs) → IsList s xs → Deleted s xs (list_delete s)
unfolding list_delete
list_delete_lem {s} xs full is =
    subst (λ q. Deleted s xs (delete_loop (s.size + 1) q s)) (sym is.head_eq)
      (delete_loop-Deleted (s.size + 1) xs full is (omega (arith, is.size_eq)))

-- With NULL for its first data the loop of `list_delete` never ends, however many rounds it is
-- given: `list_remove` does not find NULL.
pub delete_loop-null :
    (k : ℕ) {s : Store} (p : Ptr) (xs : Cells)
    → IsList s ((p, null) ∷ xs)
    → delete_loop k s.head s ≡ out_of_fuel
unfolding delete_loop
delete_loop-null zero p xs is = refl
delete_loop-null (suc k) {s} p xs is =
    rw
      (
        ne→== s.head null (λ e. is.chain.0 (sym is.head_eq ∙ e)),
        load-ok s s.head (node null (first_or null xs) null) (λ e. is.chain.0 (sym is.head_eq ∙ e))
            (ap s.cells is.head_eq ∙ is.chain.1),
        list_remove-null s,
      )
      (delete_loop-null k p xs is)

-- Data that is NULL can be appended to an empty list, with an address that is not in use, and
-- then no number of rounds is enough for the loop of `list_delete`.
pub append_null_then_delete :
    {s : Store} (fresh k : ℕ)
    → fresh ≢ null
    → s.cells fresh ≡ none
    → IsList s []
    → (t : Store) × (list_append fresh null s ≡ ok ListError.ok t)
      × (delete_loop k t.head t ≡ out_of_fuel)
append_null_then_delete fresh k live unused is =
    let y = list_append-last fresh null [] live unused tt tt is (omega (arith, is.size_eq)) in
    (y.store, y.result, delete_loop-null k fresh [] y.list)
