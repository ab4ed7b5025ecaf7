-- ===== src/LinkedList/Abstract.antt =====
-- What list/list.h promises: a sequence of distinct data pointers. The commands of list/list.c
-- refine the operations on the sequence.
pub mod Lemmas
pub mod Outcome
pub mod Refine
pub mod Observe
use leipocode.Base.{
  ℕ, ◌≡◌, refl, sym, ap, subst, ◌≢◌, ◌⊎◌, inl, inr, Bool, true, false, Option, none, some, List, [],
  ◌∷◌, ◌++◌, ◌∙◌, arith, ◌==◌, if◌then◌else◌, Bool-cases, ne→==, eq→==, append_assoc, append-nil,
}
use native.Mathlib.Decide.{ℕ_discrete}
use leipocode.LinkedList.Memory.{Ptr, null, Node, Store, Run, ok, Cmd}
use leipocode.LinkedList.Chain.{
  Cells, items, NotIn, IsList, Yields, items-append, NotIn-append, NotIn-of_append,
}
use leipocode.LinkedList.{
  ListError, insufficient_memory, element_already_in_list, element_not_in_list, list_insert,
  list_append, list_remove,
}

-- The store holds the sequence `l`, of which nothing is NULL.
pub record Holds (s : Store) (l : List Ptr) : Type 0 where
  pub cells : Cells
  pub list : IsList s cells
  pub data_eq : items cells ≡ l
  pub full : NotIn null (items cells)

unfoldable pub member : Ptr → List Ptr → Bool
member d [] = false
member d (x ∷ l) = if x == d then true else member d l

unfoldable pub insert_after : (d ref : Ptr) → List Ptr → List Ptr
insert_after d ref [] = []
insert_after d ref (x ∷ l) = if x == ref then x ∷ d ∷ l else x ∷ insert_after d ref l

unfoldable pub erase : Ptr → List Ptr → List Ptr
erase d [] = []
erase d (x ∷ l) = if x == d then l else x ∷ erase d l

-- A call, with the address that `malloc` returns in it.
pub data Op : Type 0 where
  insert : (fresh d ref : Ptr) → Op
  append : (fresh d : Ptr) → Op
  remove : (d : Ptr) → Op

unfoldable pub call : Op → Cmd ListError
call (insert fresh d ref) = list_insert fresh d ref
call (append fresh d) = list_append fresh d
call (remove d) = list_remove d

-- The sequence behind a call, and the code that it returns.
abbrev insert_in : (fresh d ref : Ptr) → List Ptr → ListError × List Ptr
insert_in fresh d ref l =
    if member d l
    then (element_already_in_list, l)
    else if fresh == null
    then (insufficient_memory, l)
    else elim l [
      | [] ↦ (ListError.ok, d ∷ [])
      | x ∷ l' ↦
          if member ref (x ∷ l')
          then (ListError.ok, insert_after d ref (x ∷ l'))
          else (element_not_in_list, x ∷ l')
    ]

unfoldable pub spec : Op → List Ptr → ListError × List Ptr
unfolding member insert_after erase
spec (insert fresh d ref) l = insert_in fresh d ref l
spec (append fresh d) l =
    if member d l
    then (element_already_in_list, l)
    else if fresh == null
    then (insufficient_memory, l)
    else (ListError.ok, l ++ d ∷ [])
spec (remove d) l = if member d l then (ListError.ok, erase d l) else (element_not_in_list, l)

-- The data of a call is not NULL, and `malloc` returns NULL or an unused address.
abbrev pub Allowed : Op → Store → Type 0
Allowed (insert fresh d ref) s = (d ≢ null) × ((fresh ≢ null) → s.cells fresh ≡ none)
Allowed (append fresh d) s = (d ≢ null) × ((fresh ≢ null) → s.cells fresh ≡ none)
Allowed (remove d) s = d ≢ null

-- What the other functions answer about a sequence: its ends, NULL if it is empty, and what stands
-- behind and in front of the first occurrence of data.
unfoldable pub first_of : List Ptr → Ptr
first_of [] = null
first_of (x ∷ l) = x

unfoldable pub last_from : Ptr → List Ptr → Ptr
last_from x [] = x
last_from x (y ∷ l) = last_from y l

unfoldable pub next_of : Ptr → List Ptr → Ptr
unfolding first_of
next_of d [] = null
next_of d (x ∷ l) = if x == d then first_of l else next_of d l

unfoldable pub prev_of : (before d : Ptr) → List Ptr → Ptr
prev_of b d [] = null
prev_of b d (x ∷ l) = if x == d then b else prev_of x d l
