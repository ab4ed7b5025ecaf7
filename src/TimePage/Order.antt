-- ===== src/TimePage/Order.antt =====
-- The page of time stamps of LinuxDeviceDrivers3Ed/short/short.c and shortprint/shortprint.c in use:
-- what comes out, and in which order.
use leipocode.Base.{
  ℕ, ◌+◌, ◌-◌, ◌%◌, ◌≤◌, ◌<◌, ◌≡◌, refl, sym, ap, subst, ◌∙◌, inl, inr, min, true, List, [], ◌∷◌,
  ◌++◌, append_assoc, append-nil, arith, ltb, ◌==◌, if◌then◌else◌, length, slice, write_at,
  length-write_at, length-slice, next_index, in_one_piece, held, held-next, held-write, Bool-cases,
}
use leipocode.Kernel.{returns, page_size}
use leipocode.TimePage.{Page, incr_bp, printed, Outcome, done, asleep, taken, read_page}

-- The page is there, the head is at the start of a record, and the tail is in the page.
pub record IsValid (p : Page) : Type 0 where
  pub sized : length p.memory ≡ page_size + 1
  pub aligned : p.head % 16 ≡ 0
  pub head_in : p.head < page_size
  pub tail_in : p.tail < page_size

-- The characters that wait to be read, oldest first.
abbrev pub contents : Page → List ℕ
contents p = held page_size p.memory p.tail p.head

incr_bp_lem : (i k : ℕ) → incr_bp i k ≡ next_index page_size i k
unfolding incr_bp
incr_bp_lem i k = ground arith

pub incr_bp-lt : (i k : ℕ) → incr_bp i k < page_size
unfolding incr_bp
incr_bp-lt i k = ground arith

pub printed-IsValid :
    (text : List ℕ) (p : Page) → IsValid p → length text ≡ 16 → IsValid (printed text p)
unfolding printed incr_bp
printed-IsValid text p v l = record {
  sized = length-write_at p.head _ p.memory ∙ v.sized;
  aligned = ground (arith, l, v.aligned, v.head_in);
  head_in = ground (arith, l);
  tail_in = v.tail_in;
}

-- A record on a page with room for more than one.
pub contents-printed :
    (text : List ℕ) (p : Page)
    → IsValid p
    → length text ≡ 16
    → length (contents p) + 16 < page_size
    → contents (printed text p) ≡ contents p ++ text
unfolding printed
contents-printed text p v l room =
    ap (held page_size (write_at p.head (text ++ 0 ∷ []) p.memory) p.tail)
      (incr_bp_lem p.head (length text))
    ∙ held-write page_size p.memory text (0 ∷ []) p.tail p.head (omega (arith, v.sized)) v.tail_in
        (omega (arith, l, v.aligned, v.head_in)) (omega (arith, l, room)) (omega (arith, l))
        (omega arith)

-- The outcome is a return of `n` bytes, the first that the page held; it holds the others.
pub record Took (n : ℕ) (p : Page) (out : Outcome) : Type 0 where
  pub page : Page
  pub bytes : List ℕ
  pub result : out ≡ done (returns n) bytes page
  pub counted : length bytes ≡ n
  pub front : bytes ++ contents page ≡ contents p
  pub valid : IsValid page

abbrev pub readable : Page → ℕ
readable p = if ltb p.head p.tail then page_size - p.tail else p.head - p.tail

pub taken-Took :
    (count : ℕ) (p : Page) → IsValid p → Took (min (readable p) count) p (taken count true p)
unfolding taken
taken-Took count p v =
    let n = min (readable p) count in
    let piece : n ≤ in_one_piece page_size p.tail p.head = ground arith in
    let inside : p.tail + n ≤ page_size = ground (arith, v.head_in, v.tail_in) in
    record {
      page = record p { tail = incr_bp p.tail n };
      bytes = slice p.memory p.tail n;
      result = refl;
      counted = length-slice p.memory p.tail n (omega (arith, inside, v.sized));
      front =
          ap (λ i. slice p.memory p.tail n ++ held page_size p.memory i p.head)
            (incr_bp_lem p.tail n)
          ∙ held-next page_size p.memory p.tail p.head n v.tail_in v.head_in piece;
      valid = record {
        sized = v.sized;
        aligned = v.aligned;
        head_in = v.head_in;
        tail_in = incr_bp-lt p.tail n;
      };
    }

-- An interrupt that prints a record, or a read of a process.
pub data Event : Type 0 where
  prints : (text : List ℕ) → Event
  reads : (count : ℕ) → Event

-- The characters that were printed, those that were read, and the page.
pub record Traffic : Type 0 where
  pub sent : List ℕ
  pub received : List ℕ
  pub page : Page

-- (A read that sleeps adds nothing.)
abbrev pub add_read : Traffic → Outcome → Traffic
add_read t (done r bytes q) = record t { received = t.received ++ bytes; page = q }
add_read t (asleep q) = record t { page = q }

unfoldable pub run : List Event → Traffic → Traffic
unfolding printed read_page
run [] t = t
run (prints text ∷ es) t = run es (record t { sent = t.sent ++ text; page = printed text t.page })
run (reads count ∷ es) t = run es (add_read t (read_page count true [] t.page))

abbrev pub page_of : Outcome → Page
page_of (done r bytes q) = q
page_of (asleep q) = q

-- Records have 16 characters, and each finds room for more than itself.
abbrev pub Roomy : List Event → Page → Type 0
Roomy [] p = Unit {0}
Roomy (prints text ∷ es) p =
    (length text ≡ 16) × (length (contents p) + 16 < page_size) × Roomy es (printed text p)
Roomy (reads count ∷ es) p = Roomy es (page_of (read_page count true [] p))

-- What was read, and what the page holds, is what it held before and what was printed.
pub record InOrder (before : List ℕ) (t : Traffic) : Type 0 where
  pub order : t.received ++ contents t.page ≡ before ++ t.sent
  pub valid : IsValid t.page

read-InOrder :
    (before : List ℕ) (count : ℕ) (t : Traffic)
    → InOrder before t
    → InOrder before (add_read t (read_page count true [] t.page))
      × (page_of (read_page count true [] t.page)
          ≡ (add_read t (read_page count true [] t.page)).page)
unfolding read_page
read-InOrder before count t i = elim (Bool-cases (t.page.head == t.page.tail)) [
  | inl e ↦
      let sleeps : read_page count true [] t.page ≡ asleep t.page = rw e refl in
      subst kept (sym sleeps) (record { order = i.order; valid = i.valid }, refl)
  | inr e ↦
      let k = taken-Took count t.page i.valid in
      let takes : read_page count true [] t.page ≡ taken count true t.page = rw e refl in
      subst kept (sym (takes ∙ k.result)) (
        record {
          order =
              append_assoc t.received k.bytes (contents k.page)
              ∙ ap (λ l. t.received ++ l) k.front
              ∙ i.order;
          valid = k.valid;
        },
        refl,
      )
]
  where
    kept : Outcome → Type 0
    kept out = InOrder before (add_read t out) × (page_of out ≡ (add_read t out).page)

run-InOrder :
    (before : List ℕ) (es : List Event) (t : Traffic)
    → InOrder before t
    → Roomy es t.page
    → InOrder before (run es t)
unfolding run
run-InOrder before [] t i room = i
run-InOrder before (prints text ∷ es) t i (l, some_room, room) =
    run-InOrder before es (record t { sent = t.sent ++ text; page = printed text t.page })
      (record {
        order =
            ap (λ c. t.received ++ c) (contents-printed text t.page i.valid l some_room)
            ∙ sym (append_assoc t.received (contents t.page) text)
            ∙ ap (λ c. c ++ text) i.order
            ∙ append_assoc before t.sent text;
        valid = printed-IsValid text t.page i.valid l;
      })
      room
run-InOrder before (reads count ∷ es) t i room =
    let (next, same) = read-InOrder before count t i in
    run-InOrder before es _ next (subst (Roomy es) same room)

-- On a valid page, records of 16 characters that each find room for more than themselves, and reads in
-- between: what was read, and then what the page still holds, is what the page held first and then
-- what was printed, in this order.
pub page_is_fifo :
    (es : List Event) (p : Page)
    → IsValid p
    → Roomy es p
    → let t = run es (record { sent = []; received = []; page = p }) in
      (t.received ++ contents t.page ≡ contents p ++ t.sent) × IsValid t.page
page_is_fifo es p v room =
    let i =
      run-InOrder (contents p) es (record { sent = []; received = []; page = p })
        (record { order = sym (append-nil (contents p)); valid = v }) room in
    (i.order, i.valid)
