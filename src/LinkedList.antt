-- ===== src/LinkedList.antt =====
-- list/list.c: a doubly linked list of data pointers.
-- A function that takes `List *L` is a command over the store. `fresh` is what `malloc` returns in
-- `list_insert`. A loop runs on fuel, `size + 1` rounds, which is enough on a well-formed list.
pub mod Memory
pub mod Chain
pub mod Find
pub mod Ends
pub mod Link
pub mod Insert
pub mod Append
pub mod Unlink
pub mod Remove
pub mod Delete
pub mod Abstract
mod Tests
use leipocode.Base.{
  ℕ, zero, suc, ◌+◌, ◌-◌, Bool, true, false, some, ◌&&◌, ◌||◌, ◌==◌, if◌then◌else◌,
}
use Memory.{
  Ptr, null, node, Run, out_of_fuel, Cmd, pure, ◌>>=◌, ◌>>◌, the_list, set_head, set_tail, set_size,
  increment_size, put, load, set_next, set_prev, free,
}

-- `enum ListError_t`
pub data ListError : Type 0 where
  ok insufficient_memory element_already_in_list element_not_in_list : ListError

pub list_head : Cmd Ptr
unfolding load
list_head = do
  l ← the_list
  if l.head == null then pure null else (do n ← load l.head; pure n.data_ptr)

pub list_tail : Cmd Ptr
unfolding load
list_tail = do
  l ← the_list
  if l.tail == null then pure null else (do n ← load l.tail; pure n.data_ptr)

pub list_size : Cmd ℕ
list_size = do l ← the_list; pure l.size

find_loop : ℕ → (d pos : Ptr) → Cmd Ptr
find_loop zero d pos = λ _. out_of_fuel
find_loop (suc k) d pos =
    if pos == null
    then pure null
    else do n ← load pos; if n.data_ptr == d then pure pos else find_loop k d n.next

pub list_find_pos : Ptr → Cmd Ptr
list_find_pos d =
    if d == null then pure null else (do l ← the_list; find_loop (l.size + 1) d l.head)

pub list_next_data : Ptr → Cmd Ptr
list_next_data ref = do
  pos ← list_find_pos ref
  l ← the_list
  if (pos == null) || (pos == l.tail)
      then pure null
      else (do n ← load pos; m ← load n.next; pure m.data_ptr)

pub list_prev_data : Ptr → Cmd Ptr
list_prev_data ref = do
  pos ← list_find_pos ref
  l ← the_list
  if (pos == null) || (pos == l.head)
      then pure null
      else (do n ← load pos; m ← load n.prev; pure m.data_ptr)

pub list_has_member : Ptr → Cmd Bool
list_has_member d = do pos ← list_find_pos d; pure (if pos == null then false else true)

-- The stores that put a new node behind `pos`.
pub link_after : (pos new_node : Ptr) → Cmd (Unit {0})
link_after pos new_node = do
  l ← the_list
  if pos == l.tail
      then (do set_next pos new_node; set_prev new_node pos; set_tail new_node)
      else (do
        n ← load pos
        set_next new_node n.next
        set_prev new_node pos
        m ← load pos
        set_prev m.next new_node
        set_next pos new_node)

-- From the search for the reference on.
insert_behind : (fresh ref : Ptr) → Cmd ListError
insert_behind fresh ref = do
  pos ← list_find_pos ref
  if pos == null
      then (do free fresh; pure element_not_in_list)
      else (do link_after pos fresh; increment_size; pure ok)

pub list_insert : (fresh d ref : Ptr) → Cmd ListError
unfolding insert_behind
list_insert fresh d ref = do
  found ← list_has_member d
  if found
      then pure element_already_in_list
      else if fresh == null
      then pure insufficient_memory
      else (do
        put fresh (some (node d null null))
        l ← the_list
        if l.size == 0
            then (do set_head fresh; set_tail fresh; set_size 1; pure ok)
            else insert_behind fresh ref)

pub list_append : (fresh d : Ptr) → Cmd ListError
unfolding list_insert
list_append fresh d = do
  l ← the_list
  if l.tail == null then list_insert fresh d null else (do ref ← list_tail; list_insert fresh d ref)

-- The stores that take `pos` out of a list in which it is not alone.
pub unlink : Ptr → Cmd (Unit {0})
unlink pos = do
  l ← the_list
  n ← load pos
  if pos == l.head
      then (do set_head n.next; set_prev n.next null)
      else if pos == l.tail
      then (do set_tail n.prev; set_next n.prev null)
      else (do set_prev n.next n.prev; m ← load pos; set_next m.prev m.next)

pub list_remove : Ptr → Cmd ListError
unfolding unlink
list_remove d = do
  pos ← list_find_pos d
  l ← the_list
  if pos == null
      then pure element_not_in_list
      else if (pos == l.head) && (pos == l.tail)
      then (do set_head null; set_tail null; set_size 0; free pos; pure ok)
      else (do unlink pos; l ← the_list; set_size (l.size - 1); free pos; pure ok)

pub list_init : Cmd ListError
list_init = do set_head null; set_tail null; set_size 0; pure ok

pub delete_loop : ℕ → Ptr → Cmd ListError
delete_loop zero pos = λ _. out_of_fuel
delete_loop (suc k) pos =
    if pos == null
    then pure ok
    else do n ← load pos; list_remove n.data_ptr; l ← the_list; delete_loop k l.head

pub list_delete : Cmd ListError
unfolding delete_loop
list_delete = do l ← the_list; delete_loop (l.size + 1) l.head
