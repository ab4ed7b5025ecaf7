-- ===== src/LinkedList/Memory.antt =====
-- The memory that list/list.c works on: the nodes at their addresses beside one `List`, and the
-- commands that read and write them.
use leipocode.Base.{ℕ, ◌+◌, ◌^◌, ltb, Option, none, some, ◌==◌, if◌then◌else◌}

abbrev pub Ptr : Type 0
Ptr = ℕ

abbrev pub null : Ptr
null = 0

-- `struct Node_t`; `data` is a reserved word here.
pub record Node : Type 0 where
  pub data_ptr : Ptr
  pub next : Ptr
  pub prev : Ptr

abbrev pub node : Ptr → Ptr → Ptr → Node
node d q b = record { data_ptr = d; next = q; prev = b }

-- `struct List_t`, and the nodes that are allocated.
pub record Store : Type 0 where
  pub size : ℕ
  pub head : Ptr
  pub tail : Ptr
  pub cells : Ptr → Option Node

unfoldable pub update : (Ptr → Option Node) → Ptr → Option Node → Ptr → Option Node
update h p c a = if a == p then c else h a

-- `fault` is an access through a pointer that leads to no node; `out_of_fuel` is a loop that did
-- not end within its rounds; `overflow` is a sum beyond the range of `int`.
pub data Run (A : Type 0) : Type 0 where
  ok : A → Store → Run A
  fault : Run A
  out_of_fuel : Run A
  overflow : Run A

abbrev pub Cmd : Type 0 → Type 0
Cmd A = Store → Run A

abbrev pub pure : {A : Type 0} → A → Cmd A
pure = ok

module _ {A B : Type 0} where
  abbrev pub and_then : Run A → (A → Cmd B) → Run B
  and_then (ok a s) k = k a s
  and_then fault k = fault
  and_then out_of_fuel k = out_of_fuel
  and_then overflow k = overflow

  infixl 5 ◌>>=◌ ◌>>◌
  abbrev pub ◌>>=◌ : Cmd A → (A → Cmd B) → Cmd B
  m >>= k = λ s. and_then (m s) k

  abbrev pub ◌>>◌ : Cmd A → Cmd B → Cmd B
  m >> n = m >>= λ _. n

-- `*L`
abbrev pub the_list : Cmd Store
the_list s = ok s s

abbrev pub set_head : Ptr → Cmd (Unit {0})
set_head p s = ok tt (record s { head = p })

abbrev pub set_tail : Ptr → Cmd (Unit {0})
set_tail p s = ok tt (record s { tail = p })

abbrev pub set_size : ℕ → Cmd (Unit {0})
set_size n s = ok tt (record s { size = n })

-- `L->size++`, an `int`
abbrev pub increment_size : Cmd (Unit {0})
increment_size s =
    if ltb (s.size + 1) (2 ^ 31) then ok tt (record s { size = s.size + 1 }) else overflow

-- Fills an address, or gives it back.
abbrev pub put : Ptr → Option Node → Cmd (Unit {0})
put p c s = ok tt (record s { cells = update s.cells p c })

-- `*p`
unfoldable pub load : Ptr → Cmd Node
load p s = if p == null then fault else elim (s.cells p) [ none ↦ fault | some n ↦ ok n s ]

-- `p->next = q`
unfoldable pub set_next : Ptr → Ptr → Cmd (Unit {0})
unfolding load
set_next p q = do n ← load p; put p (some (record n { next = q }))

-- `p->prev = q`
unfoldable pub set_prev : Ptr → Ptr → Cmd (Unit {0})
unfolding load
set_prev p q = do n ← load p; put p (some (record n { prev = q }))

unfoldable pub free : Ptr → Cmd (Unit {0})
unfolding load
free p = do load p; put p none
