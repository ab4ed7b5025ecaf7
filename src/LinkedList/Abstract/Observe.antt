-- ===== src/LinkedList/Abstract/Observe.antt =====
-- The functions of list/list.c that only read.
use leipocode.Base.{
  suc, ◌≡◌, refl, sym, ap, subst, ◌≢◌, inl, inr, List, [], ◌∷◌, ◌++◌, ◌∙◌, ne→==, eq→==,
}
use leipocode.LinkedList.Memory.{Ptr, null, Store, ok}
use leipocode.LinkedList.Chain.{Cells, items, NotIn, IsList, items-append, NotIn-of_append}
use leipocode.LinkedList.Find.{locate, unique_before}
use leipocode.Base.{length}
use leipocode.LinkedList.Find.{
  first_item, last_item_from, load-ok, has_member-absent, has_member-present, list_next_data_lem,
  list_find_pos-absent,
}
use leipocode.LinkedList.Ends.{last_item, Last-node, list_prev_data_lem}
use leipocode.LinkedList.{
  list_size, list_head, list_tail, list_has_member, list_next_data, list_prev_data,
}
use leipocode.LinkedList.Abstract.Lemmas.{member-absent, member-middle}
use leipocode.LinkedList.Abstract.{Holds, member, first_of, last_from, next_of, prev_of}

next_of-middle : (d : Ptr) (xs ys : List Ptr) → NotIn d xs → next_of d (xs ++ d ∷ ys) ≡ first_of ys
unfolding next_of
next_of-middle d [] ys out = rw (eq→== d d refl)
next_of-middle d (x ∷ xs) ys out =
    rw (ne→== x d (λ e. out.0 (sym e))) (next_of-middle d xs ys out.1)

next_of-absent : (d : Ptr) (l : List Ptr) → NotIn d l → next_of d l ≡ null
unfolding next_of
next_of-absent d [] out = refl
next_of-absent d (x ∷ l) out = rw (ne→== x d (λ e. out.0 (sym e))) (next_of-absent d l out.1)

prev_of-middle :
    (b d : Ptr) (xs ys : List Ptr) → NotIn d xs → prev_of b d (xs ++ d ∷ ys) ≡ last_from b xs
unfolding prev_of last_from
prev_of-middle b d [] ys out = rw (eq→== d d refl)
prev_of-middle b d (x ∷ xs) ys out =
    rw (ne→== x d (λ e. out.0 (sym e))) (prev_of-middle x d xs ys out.1)

prev_of-absent : (b d : Ptr) (l : List Ptr) → NotIn d l → prev_of b d l ≡ null
unfolding prev_of
prev_of-absent b d [] out = refl
prev_of-absent b d (x ∷ l) out = rw (ne→== x d (λ e. out.0 (sym e))) (prev_of-absent x d l out.1)

first_of-items : (xs : Cells) → first_item xs ≡ first_of (items xs)
unfolding first_of
first_of-items [] = refl
first_of-items (c ∷ xs) = refl

last_from-items : (d : Ptr) (xs : Cells) → last_item_from d xs ≡ last_from d (items xs)
unfolding last_from
last_from-items d [] = refl
last_from-items d ((_, e) ∷ xs) = last_from-items e xs

last_item-items : (xs : Cells) → last_item xs ≡ last_from null (items xs)
unfolding last_from
last_item-items [] = refl
last_item-items ((_, d) ∷ xs) = last_from-items d xs

pub length-items : (xs : Cells) → length (items xs) ≡ length xs
length-items [] = refl
length-items (c ∷ xs) = ap suc (length-items xs)

-- What the readers answer on a list with the cells `xs`.
pub record Answers (d : Ptr) (s : Store) (l : List Ptr) : Type 0 where
  pub size : list_size s ≡ ok (length l) s
  pub head : list_head s ≡ ok (first_of l) s
  pub tail : list_tail s ≡ ok (last_from null l) s
  pub has : list_has_member d s ≡ ok (member d l) s
  pub next : list_next_data d s ≡ ok (next_of d l) s
  pub prev : list_prev_data d s ≡ ok (prev_of null d l) s

head_answers : {s : Store} (xs : Cells) → IsList s xs → list_head s ≡ ok (first_item xs) s
unfolding list_head
head_answers [] is = rw (eq→== _ null is.head_eq)
head_answers {s} ((p, d) ∷ xs) is =
    let live : s.head ≢ null = λ e. is.chain.0 (sym is.head_eq ∙ e) in
    rw (ne→== s.head null live, load-ok s s.head _ live (ap s.cells is.head_eq ∙ is.chain.1))

tail_answers : {s : Store} (xs : Cells) → IsList s xs → list_tail s ≡ ok (last_item xs) s
unfolding list_tail
tail_answers [] is = rw (eq→== _ null is.tail_eq)
tail_answers {s} (c ∷ xs) is =
    let l = Last-node s.cells null c xs null is.apart is.chain in
    let live : s.tail ≢ null = λ e. l.live (sym is.tail_eq ∙ e) in
    rw (ne→== s.tail null live, load-ok s s.tail _ live (ap s.cells is.tail_eq ∙ l.at))

Answers-absent :
    {s : Store} (d : Ptr) (xs : Cells) → IsList s xs → NotIn d (items xs) → Answers d s (items xs)
unfolding list_size list_next_data list_prev_data
Answers-absent {s} d xs is out = record {
  size = ap (λ n. ok n s) (is.size_eq ∙ sym (length-items xs));
  head = head_answers xs is ∙ ap (λ n. ok n s) (first_of-items xs);
  tail = tail_answers xs is ∙ ap (λ n. ok n s) (last_item-items xs);
  has = has_member-absent d is out ∙ ap (λ b. ok b s) (sym (member-absent d (items xs) out));
  next = rw (list_find_pos-absent d is out, next_of-absent d (items xs) out);
  prev = rw (list_find_pos-absent d is out, prev_of-absent null d (items xs) out);
}

Answers-present :
    {s : Store} (d : Ptr) (ys : Cells) (p : Ptr) (zs : Cells)
    → d ≢ null
    → IsList s (ys ++ (p, d) ∷ zs)
    → Answers d s (items (ys ++ (p, d) ∷ zs))
unfolding list_size
Answers-present {s} d ys p zs ne is =
    let xs = ys ++ (p, d) ∷ zs in
    let parts = items-append ys ((p, d) ∷ zs) in
    let first = unique_before ys p d zs is in
    record {
      size = ap (λ n. ok n s) (is.size_eq ∙ sym (length-items xs));
      head = head_answers xs is ∙ ap (λ n. ok n s) (first_of-items xs);
      tail = tail_answers xs is ∙ ap (λ n. ok n s) (last_item-items xs);
      has =
          has_member-present d ys p zs ne is
          ∙ ap (λ b. ok b s) (sym (ap (member d) parts ∙ member-middle d (items ys) (items zs)));
      next =
          list_next_data_lem d ys p zs ne is
          ∙ ap (λ n. ok n s)
              (first_of-items zs
                ∙ sym (ap (next_of d) parts ∙ next_of-middle d (items ys) (items zs) first));
      prev =
          list_prev_data_lem d ys p zs ne is
          ∙ ap (λ n. ok n s)
              (last_item-items ys
                ∙ sym (
                    ap (prev_of null d) parts ∙ prev_of-middle null d (items ys) (items zs) first));
    }

answers :
    {s : Store} (d : Ptr) (xs : Cells)
    → IsList s xs
    → NotIn null (items xs)
    → Answers d s (items xs)
answers {s} d xs is full = elim (locate d xs) [
  | inl out ↦ Answers-absent d xs is out
  | inr f ↦
      let at = λ (l : Cells). IsList s l × NotIn null (items l) in
      let h = subst at f.whole (is, full) in
      let ne : d ≢ null = λ e.
        (NotIn-of_append null (items f.before) (d ∷ items f.after)
            (subst (NotIn null) (items-append f.before ((f.pos, d) ∷ f.after)) h.1)).1.0
          (sym e) in
      subst (λ l. Answers d s (items l)) (sym f.whole)
        (Answers-present d f.before f.pos f.after ne h.0)
]

-- On a store that holds a sequence the readers change nothing and answer, for any data: its
-- length, its first and its last element (NULL if it is empty), whether the data is in it, and
-- what stands directly behind and in front of the data (NULL if there is nothing, or no data).
pub readers_refine :
    {s : Store} (l : List Ptr) (d : Ptr)
    → Holds s l
    → (list_size s ≡ ok (length l) s)
      × (list_head s ≡ ok (first_of l) s)
      × (list_tail s ≡ ok (last_from null l) s)
      × (list_has_member d s ≡ ok (member d l) s)
      × (list_next_data d s ≡ ok (next_of d l) s)
      × (list_prev_data d s ≡ ok (prev_of null d l) s)
readers_refine {s} l d h =
    let a = subst (Answers d s) h.data_eq (answers d h.cells h.list h.full) in
    (a.size, a.head, a.tail, a.has, a.next, a.prev)
