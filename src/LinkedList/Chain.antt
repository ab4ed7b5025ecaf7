-- ===== src/LinkedList/Chain.antt =====
-- What a well-formed list of list/list.c looks like in memory: its cells, linked both ways.
use leipocode.Base.{
  ℕ, ◌≡◌, refl, sym, ap, ◌≢◌, Option, none, some, List, [], ◌∷◌, ◌++◌, arith, length,
}
use leipocode.LinkedList.Memory.{Ptr, null, Node, node, Store, Run, ok, update}

-- Address and data of each node, in order.
abbrev pub Cells : Type 0
Cells = List (Ptr × Ptr)

abbrev pub ptrs : Cells → List Ptr
ptrs [] = []
ptrs ((p, _) ∷ xs) = p ∷ ptrs xs

-- The abstract list: the data in order.
abbrev pub items : Cells → List Ptr
items [] = []
items ((_, d) ∷ xs) = d ∷ items xs

abbrev pub first_or : Ptr → Cells → Ptr
first_or e [] = e
first_or e ((p, _) ∷ _) = p

abbrev pub last_or : Ptr → Cells → Ptr
last_or b [] = b
last_or b ((p, _) ∷ xs) = last_or p xs

abbrev pub NotIn : ℕ → List ℕ → Type 0
NotIn a [] = Unit {0}
NotIn a (x ∷ xs) = (a ≢ x) × NotIn a xs

abbrev pub Distinct : List ℕ → Type 0
Distinct [] = Unit {0}
Distinct (x ∷ xs) = NotIn x xs × Distinct xs

-- The nodes of `xs` are linked both ways, behind the node `b` and in front of the node `e`.
abbrev pub Chain : (Ptr → Option Node) → Ptr → Cells → Ptr → Type 0
Chain h b [] e = Unit {0}
Chain h b ((p, d) ∷ xs) e = (p ≢ null) × (h p ≡ some (node d (first_or e xs) b)) × Chain h p xs e

-- The list that the store holds has the cells `xs`.
pub record IsList (s : Store) (xs : Cells) : Type 0 where
  pub size_eq : s.size ≡ length xs
  pub head_eq : s.head ≡ first_or null xs
  pub tail_eq : s.tail ≡ last_or null xs
  pub chain : Chain s.cells null xs null
  pub apart : Distinct (ptrs xs)
  pub unique : Distinct (items xs)

-- A run from `s` ends with `code` and leaves the list with the cells `xs`, and memory outside the
-- cells `scope` as it was.
pub record Yields {A : Type 0} (s : Store) (code : A) (scope xs : Cells) (out : Run A)
    : Type 0 where
  pub store : Store
  pub result : out ≡ ok code store
  pub list : IsList store xs
  pub same : (a : Ptr) → NotIn a (ptrs scope) → store.cells a ≡ s.cells a

pub ptrs-append : (xs ys : Cells) → ptrs (xs ++ ys) ≡ ptrs xs ++ ptrs ys
ptrs-append [] ys = refl
ptrs-append ((p, _) ∷ xs) ys = ap (λ l. p ∷ l) (ptrs-append xs ys)

pub items-append : (xs ys : Cells) → items (xs ++ ys) ≡ items xs ++ items ys
items-append [] ys = refl
items-append ((_, d) ∷ xs) ys = ap (λ l. d ∷ l) (items-append xs ys)

pub NotIn-append : (a : ℕ) (xs ys : List ℕ) → NotIn a xs → NotIn a ys → NotIn a (xs ++ ys)
NotIn-append a [] ys h k = k
NotIn-append a (x ∷ xs) ys h k = (h.0, NotIn-append a xs ys h.1 k)

pub NotIn-of_append : (a : ℕ) (xs ys : List ℕ) → NotIn a (xs ++ ys) → NotIn a xs × NotIn a ys
NotIn-of_append a [] ys h = (tt, h)
NotIn-of_append a (x ∷ xs) ys h = let (l, r) = NotIn-of_append a xs ys h.1 in ((h.0, l), r)

-- What taking out a middle element leaves apart, and what it was apart from.
pub Distinct-of_middle :
    (a : ℕ) (xs ys : List ℕ) → Distinct (xs ++ a ∷ ys) → NotIn a (xs ++ ys) × Distinct (xs ++ ys)
Distinct-of_middle a [] ys h = h
Distinct-of_middle a (x ∷ xs) ys h =
    let (n, m) = NotIn-of_append x xs (a ∷ ys) h.0 in
    let (out, rest) = Distinct-of_middle a xs ys h.1 in
    ((λ e. m.0 (sym e), out), (NotIn-append x xs ys n m.1, rest))

pub Distinct-middle :
    (a : ℕ) (xs ys : List ℕ) → NotIn a (xs ++ ys) → Distinct (xs ++ ys) → Distinct (xs ++ a ∷ ys)
Distinct-middle a [] ys h k = (h, k)
Distinct-middle a (x ∷ xs) ys h k =
    let (n, m) = NotIn-of_append x xs ys k.0 in
    (NotIn-append x xs (a ∷ ys) n ((λ e. h.0 (sym e)), m), Distinct-middle a xs ys h.1 k.1)

pub Distinct-behind :
    (a c : ℕ) (xs ys : List ℕ)
    → NotIn a (xs ++ c ∷ ys)
    → Distinct (xs ++ c ∷ ys)
    → Distinct (xs ++ c ∷ a ∷ ys)
Distinct-behind a c [] ys h k = (((λ e. h.0 (sym e)), k.0), (h.1, k.1))
Distinct-behind a c (x ∷ xs) ys h k =
    let (n, m) = NotIn-of_append x xs (c ∷ ys) k.0 in
    (
      NotIn-append x xs (c ∷ a ∷ ys) n (m.0, ((λ e. h.0 (sym e)), m.1)),
      Distinct-behind a c xs ys h.1 k.1,
    )

pub first_or-append :
    (e : Ptr) (xs ys : Cells) → first_or e (xs ++ ys) ≡ first_or (first_or e ys) xs
first_or-append e [] ys = refl
first_or-append e (x ∷ xs) ys = refl

pub last_or-append : (b : Ptr) (xs ys : Cells) → last_or b (xs ++ ys) ≡ last_or (last_or b xs) ys
last_or-append b [] ys = refl
last_or-append b ((p, _) ∷ xs) ys = last_or-append p xs ys

pub Chain-append :
    (h : Ptr → Option Node) (b e : Ptr) (xs ys : Cells)
    → Chain h b xs (first_or e ys)
    → Chain h (last_or b xs) ys e
    → Chain h b (xs ++ ys) e
Chain-append h b e [] ys c k = k
Chain-append h b e ((p, d) ∷ xs) ys c k =
    (c.0, rw first_or-append c.1, Chain-append h p e xs ys c.2 k)

pub Chain-of_append :
    (h : Ptr → Option Node) (b e : Ptr) (xs ys : Cells)
    → Chain h b (xs ++ ys) e
    → Chain h b xs (first_or e ys) × Chain h (last_or b xs) ys e
Chain-of_append h b e [] ys c = (tt, c)
Chain-of_append h b e ((p, d) ∷ xs) ys c =
    let (l, r) = Chain-of_append h p e xs ys c.2 in ((c.0, rw (← first_or-append) c.1, l), r)

pub update-ne :
    (h : Ptr → Option Node) (p : Ptr) (c : Option Node) (a : Ptr) → a ≢ p → update h p c a ≡ h a
unfolding update
update-ne h p c a ne = ground arith

pub update_self : (h : Ptr → Option Node) (p : Ptr) (c : Option Node) → update h p c p ≡ c
unfolding update
update_self h p c = ground arith

-- A write at an address outside leaves the chain as it was.
pub Chain-update :
    (h : Ptr → Option Node) (a b e : Ptr) (c : Option Node) (xs : Cells)
    → NotIn a (ptrs xs)
    → Chain h b xs e
    → Chain (update h a c) b xs e
unfolding update
Chain-update h a b e c [] out k = tt
Chain-update h a b e c ((p, d) ∷ xs) out k =
    (k.0, ground arith, Chain-update h a p e c xs out.1 k.2)

-- An unused address is none of the chain's.
pub NotIn-of_unused :
    (h : Ptr → Option Node) (a b e : Ptr) (xs : Cells)
    → h a ≡ none
    → Chain h b xs e
    → NotIn a (ptrs xs)
NotIn-of_unused h a b e [] u k = tt
NotIn-of_unused h a b e ((p, d) ∷ xs) u k = (ground arith, NotIn-of_unused h a p e xs u k.2)

-- A write at an address outside leaves the list as it was.
pub IsList-update :
    {s : Store} (a : Ptr) (c : Option Node) (xs : Cells)
    → NotIn a (ptrs xs)
    → IsList s xs
    → IsList (record s { cells = update s.cells a c }) xs
IsList-update {s} a c xs out is = record {
  size_eq = is.size_eq;
  head_eq = is.head_eq;
  tail_eq = is.tail_eq;
  chain = Chain-update s.cells a null null c xs out is.chain;
  apart = is.apart;
  unique = is.unique;
}
