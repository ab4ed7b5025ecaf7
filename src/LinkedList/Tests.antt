-- ===== src/LinkedList/Tests.antt =====
-- The list of list/testlist.c in small: three nodes at the addresses 1, 2 and 3.
use leipocode.Base.{ℕ, ◌≡◌, refl, Option, none, some, List, [], ◌∷◌, arith, length}
use leipocode.LinkedList.Memory.{
  Ptr, null, Node, node, Store, Run, ok, fault, out_of_fuel, overflow, Cmd, ◌>>=◌, ◌>>◌, update,
  load, set_next, set_prev, free,
}
use leipocode.LinkedList.Chain.{Cells, IsList}
use leipocode.LinkedList.Delete.{Deleted, list_delete_lem, append_null_then_delete}
use leipocode.LinkedList.Abstract.{
  Holds, member, insert, call, spec, first_of, last_from, next_of, prev_of,
}
use leipocode.LinkedList.Abstract.Refine.{call_refines}
use leipocode.LinkedList.Abstract.Observe.{readers_refine}
use leipocode.LinkedList.{
  ListError, element_already_in_list, list_init, list_size, list_head, list_tail, list_has_member,
  list_find_pos, list_next_data, list_prev_data, list_insert, list_append, list_remove, list_delete,
  delete_loop, find_loop, link_after,
}

abbrev nodes : Ptr → Option Node
nodes =
    update (update (update (λ _. none) 1 (some (node 10 2 0))) 2 (some (node 20 3 1))) 3
      (some (node 30 0 2))

abbrev three : Store
three = record { size = 3; head = 1; tail = 3; cells = nodes }

abbrev none_yet : Store
none_yet = record { size = 0; head = 0; tail = 0; cells = λ _. none }

abbrev cells : Cells
cells = (1, 10) ∷ (2, 20) ∷ (3, 30) ∷ []

three-IsList : IsList three cells
unfolding update
three-IsList = record {
  size_eq = refl;
  head_eq = refl;
  tail_eq = refl;
  chain = (omega arith, refl, (omega arith, refl, (omega arith, refl, tt)));
  apart = omega arith;
  unique = omega arith;
}

none_yet-IsList : IsList none_yet []
none_yet-IsList = record {
  size_eq = refl;
  head_eq = refl;
  tail_eq = refl;
  chain = tt;
  apart = tt;
  unique = tt;
}

three-Holds : Holds three (10 ∷ 20 ∷ 30 ∷ [])
three-Holds = record { cells = cells; list = three-IsList; data_eq = refl; full = omega arith }

-- Three appends on an initialised list, one of data that is in it, and a removal.
abbrev session : Cmd (ListError × ℕ × Ptr)
session = do
  list_init
  list_append 1 10
  list_append 2 20
  again ← list_append 3 20
  list_append 3 30
  list_remove 10
  n ← list_size
  first ← list_head
  λ s. ok (again, n, first) s

abbrev answer : {A : Type 0} → A → Run A → A
answer d (ok a s) = a
answer d fault = d
answer d out_of_fuel = d
answer d overflow = d

session_runs : answer (ListError.ok, 0, 0) (session none_yet) ≡ (element_already_in_list, 2, 20)
unfolding list_init list_append list_remove list_size list_head list_insert list_tail
    list_has_member list_find_pos find_loop link_after free update load set_next set_prev
session_runs = refl

call_refines_example :
    (t : Store) × (call (insert 4 15 10) three ≡ ok (spec (insert 4 15 10) (10 ∷ 20 ∷ 30 ∷ [])).0 t)
    × Holds t (spec (insert 4 15 10) (10 ∷ 20 ∷ 30 ∷ [])).1
unfolding update
call_refines_example =
    call_refines (insert 4 15 10) (10 ∷ 20 ∷ 30 ∷ []) three-Holds (omega arith, λ _. refl)
      (omega arith)

-- What the operation on the sequence gives there.
insert_runs : spec (insert 4 15 10) (10 ∷ 20 ∷ 30 ∷ []) ≡ (ListError.ok, 10 ∷ 15 ∷ 20 ∷ 30 ∷ [])
unfolding spec
insert_runs = refl

readers_refine_example :
    let l : List Ptr = 10 ∷ 20 ∷ 30 ∷ [] in
    (list_size three ≡ ok (length l) three)
    × (list_head three ≡ ok (first_of l) three)
    × (list_tail three ≡ ok (last_from null l) three)
    × (list_has_member 20 three ≡ ok (member 20 l) three)
    × (list_next_data 20 three ≡ ok (next_of 20 l) three)
    × (list_prev_data 20 three ≡ ok (prev_of null 20 l) three)
readers_refine_example = readers_refine (10 ∷ 20 ∷ 30 ∷ []) 20 three-Holds

list_delete_lem_example : Deleted three cells (list_delete three)
list_delete_lem_example = list_delete_lem cells (omega arith) three-IsList

append_null_then_delete_example :
    (t : Store) × (list_append 1 null none_yet ≡ ok ListError.ok t)
    × (delete_loop 1000 t.head t ≡ out_of_fuel)
append_null_then_delete_example = append_null_then_delete 1 1000 (omega arith) refl none_yet-IsList
