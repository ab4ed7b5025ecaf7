-- ===== src/ShortPrint/Accept.antt =====
-- How LinuxDeviceDrivers3Ed/shortprint/shortprint.c puts bytes into the output buffer.
use mathlib.Core.Bool.{true≢false, false≢true}
use leipocode.Base.{
  length-append, next_index, ℕ, ◌+◌, ◌≤◌, ◌<◌, ◌≡◌, refl, sym, ap, ap₂, subst, ◌∙◌, inl, inr, true,
  ◌||◌, List, [], ◌++◌, append_assoc, append-nil, arith, length, write_at, length-write_at, held,
  length-held, held-write, held-write_at, Bool-cases,
}
use leipocode.Kernel.{page_size}
use leipocode.ShortPrint.Window.{Held, Beside, Beside-Held, happen-Beside}
use leipocode.ShortPrint.{
  with_head, happen, Event, ShortPrint, shortp_out_space, shortp_incr_out_bp, shortp_start_output,
  with_out, accept,
}
use leipocode.ShortPrint.Stream.{pending, stream, strobed, IsValid, incr_lem, Leads}

pub shortp_out_space_lem :
    (s : ShortPrint)
    → IsValid s
    → (length (pending s) + shortp_out_space s < page_size)
      × (s.out_head + shortp_out_space s ≤ page_size)
      × (s.out_head < s.out_tail → s.out_head + shortp_out_space s ≤ s.out_tail)
unfolding shortp_out_space
shortp_out_space_lem s v =
    let l =
      length-held page_size s.out_buffer s.out_tail s.out_head (omega (arith, v.sized)) v.tail_in
        v.head_in in
    (
      ground (arith, l, v.tail_in, v.head_in),
      ground (arith, v.tail_in, v.head_in),
      λ h. ground (arith, h),
    )

-- The output is active then.
shortp_start_output-IsValid :
    (s : ShortPrint)
    → length s.out_buffer ≡ page_size
    → s.out_head < page_size
    → s.out_tail < page_size
    → (s.output_active ≡ true → (s.queued || s.running || s.timer) ≡ true)
    → IsValid (shortp_start_output s)
unfolding shortp_start_output
shortp_start_output-IsValid s sized head_in tail_in going = elim (Bool-cases s.output_active) [
  | inl a ↦
      let same : shortp_start_output s ≡ s = rw a refl in
      subst IsValid (sym same) (record {
        sized = sized;
        head_in = head_in;
        tail_in = tail_in;
        over = λ i. absurd (false≢true (sym i ∙ a));
        no_timer = λ i. absurd (false≢true (sym i ∙ a));
        kept_going = going;
      })
  | inr a ↦
      let starts : shortp_start_output s
          ≡ record s { output_active = true; timer = true; queued = true } =
        rw a refl in
      subst IsValid (sym starts) (record {
        sized = sized;
        head_in = head_in;
        tail_in = tail_in;
        over = λ i. absurd (true≢false i);
        no_timer = λ i. i;
        kept_going = λ t. refl;
      })
]

shortp_start_output-stream : (s : ShortPrint) → stream (shortp_start_output s) ≡ stream s
unfolding shortp_start_output
shortp_start_output-stream s = elim (Bool-cases s.output_active) [
  | inl a ↦ rw a refl
  | inr a ↦ rw a refl
]

-- A copy that stops changes nothing that is held.
pub with_out-Leads :
    (chunk : List ℕ) (s : ShortPrint)
    → IsValid s
    → length chunk ≤ shortp_out_space s
    → Leads (stream s) (with_out s chunk)
with_out-Leads chunk s v fits =
    let (free, piece, before) = shortp_out_space_lem s v in
    record {
      valid = record {
        sized = length-write_at s.out_head chunk s.out_buffer ∙ v.sized;
        head_in = v.head_in;
        tail_in = v.tail_in;
        over = v.over;
        no_timer = v.no_timer;
        kept_going = v.kept_going;
      };
      streamed =
          ap (λ l. strobed 0 s.outs ++ l)
            (held-write_at page_size s.out_buffer chunk s.out_tail s.out_head v.tail_in
              (λ h. omega (arith, before h, fits)));
    }

IsValid-Held : {s : ShortPrint} → IsValid s → Held s
IsValid-Held v = record {
  sized = v.sized;
  head_in = v.head_in;
  tail_in = v.tail_in;
  kept_going = v.kept_going;
}

-- The head moves behind what was copied when there was space for it; the tail may have moved since.
with_head-stream :
    (chunk : List ℕ) (s t : ShortPrint)
    → IsValid s
    → 0 < length chunk
    → length chunk ≤ shortp_out_space s
    → Beside (with_out s chunk) t
    → (stream (with_head (length chunk) t) ≡ stream s ++ chunk)
      × ((with_head (length chunk) t).out_head < page_size)
with_head-stream chunk s t v some_bytes fits b =
    let (free, piece, before) = shortp_out_space_lem s v in
    let n = length chunk in
    let held_now = held page_size s.out_buffer t.out_tail s.out_head in
    let step : (with_head n t).out_head ≡ next_index page_size s.out_head n =
      ap (λ i. shortp_incr_out_bp i n) b.same_head
      ∙ incr_lem s.out_head n (omega (arith, piece, fits)) in
    let copy = with_out-Leads chunk s v fits in
    let few : length (pending t) + n < page_size = omega (
      arith,
      b.fewer,
      free,
      fits,
      ap length copy.streamed,
      lengths s,
      lengths (with_out s chunk),
    ) in
    let same_bytes : pending t
        ≡ held page_size (write_at s.out_head chunk s.out_buffer) t.out_tail s.out_head =
      ap₂ (λ m i. held page_size m t.out_tail i) b.same_buffer b.same_head in
    let counted =
      length-held page_size (write_at s.out_head chunk s.out_buffer) t.out_tail s.out_head
        (omega (arith, length-write_at s.out_head chunk s.out_buffer, v.sized)) b.tail_in
        v.head_in in
    let apart : s.out_head < t.out_tail → s.out_head + n ≤ t.out_tail =
      λ h. ground (arith, h, few, ap length same_bytes, counted) in
    let unwritten : pending t ≡ held_now =
      same_bytes
      ∙ held-write_at page_size s.out_buffer chunk t.out_tail s.out_head b.tail_in apart in
    (
      ap₂ (λ m i. strobed 0 t.outs ++ held page_size m t.out_tail i)
            (b.same_buffer ∙ ap (λ c. write_at s.out_head c s.out_buffer) (sym (append-nil chunk)))
            step
          ∙ ap (λ l. strobed 0 t.outs ++ l)
              (held-write page_size s.out_buffer chunk [] t.out_tail s.out_head
                (omega (arith, v.sized)) b.tail_in (omega (arith, piece, fits))
                (omega (arith, few, ap length unwritten)) some_bytes (omega arith))
          ∙ sym (append_assoc (strobed 0 t.outs) held_now chunk)
          ∙ ap (λ l. strobed 0 t.outs ++ l ++ chunk) (sym unwritten)
          ∙ ap (λ l. l ++ chunk) (b.streamed ∙ copy.streamed),
      ground (arith, step, piece, fits, some_bytes),
    )
  where
    lengths : (u : ShortPrint) → length (stream u) ≡ length (strobed 0 u.outs) + length (pending u)
    lengths u = length-append (strobed 0 u.outs) (pending u)

-- As much as there is space for is accepted, whatever happens between the copy and the lock.
pub accept-Leads :
    (copying moving : List Event) (chunk : List ℕ) (s : ShortPrint)
    → IsValid s
    → 0 < length chunk
    → length chunk ≤ shortp_out_space s
    → Leads (stream s ++ chunk) (accept copying moving chunk s)
unfolding accept
accept-Leads copying moving chunk s v some_bytes fits =
    let c = with_out-Leads chunk s v fits in
    let t = happen copying (with_out s chunk) in
    let b = happen-Beside copying (with_out s chunk) (IsValid-Held c.valid) in
    let (streamed, head_in) = with_head-stream chunk s t v some_bytes fits b in
    let u = with_head (length chunk) t in
    let held_then = Beside-Held (IsValid-Held c.valid) b in
    let h : Held u = record {
      sized = held_then.sized;
      head_in = head_in;
      tail_in = held_then.tail_in;
      kept_going = held_then.kept_going;
    } in
    let b' = happen-Beside moving u h in
    let h' = Beside-Held h b' in
    record {
      valid =
          shortp_start_output-IsValid (happen moving u) h'.sized h'.head_in h'.tail_in
            h'.kept_going;
      streamed = shortp_start_output-stream (happen moving u) ∙ b'.streamed ∙ streamed;
    }
