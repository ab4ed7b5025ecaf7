-- ===== src/ScullPipe/Stream.antt =====
-- A pipe of LinuxDeviceDrivers3Ed/scull/pipe.c in use: the bytes come out in the order in which
-- they went in.
use leipocode.Base.{
  ℕ, ◌+◌, ◌-◌, ◌≡◌, refl, sym, ap, ap₂, ◌∙◌, min, true, false, List, [], ◌∷◌, ◌++◌, arith, ◌==◌,
  Bool-cases, length, take, inl, inr, eq→==, append_assoc, append-nil,
}
use leipocode.Kernel.{Ret, returns, fails, all, File}
use leipocode.ScullPipe.{
  ScullPipe, Outcome, done, asleep, overrun, up, down, spacefree, wait_while, scull_p_read,
  scull_p_write,
}
use leipocode.ScullPipe.Valid.{contents}
use leipocode.ScullPipe.Fifo.{take_bytes_lem, writable, put_bytes_lem}
use leipocode.ScullPipe.Sleep.{Idle, IsValid-sem}

-- A call of one process, on a file that does not block.
pub data Call : Type 0 where
  read : (count : ℕ) → Call
  write : (src : List ℕ) → Call

abbrev pub file : File
file = record { write_only = false; nonblock = true; mode_read = true; mode_write = true }

-- The bytes that went in, those that came out, and the pipe.
pub record Traffic : Type 0 where
  pub sent : List ℕ
  pub received : List ℕ
  pub pipe : ScullPipe

-- The bytes that a return from `write` says were accepted.
abbrev pub accepted : Ret → List ℕ → List ℕ
accepted (returns n) src = take n src
accepted (fails code) src = []

-- What a call adds to the traffic. (`asleep` and `overrun` add nothing.)
abbrev pub add_read : Traffic → Outcome → Traffic
add_read t (done r bytes e events) = record t { received = t.received ++ bytes; pipe = e }
add_read t (asleep e) = record t { pipe = e }
add_read t overrun = t

abbrev pub add_write : List ℕ → Traffic → Outcome → Traffic
add_write src t (done r bytes e events) = record t { sent = t.sent ++ accepted r src; pipe = e }
add_write src t (asleep e) = record t { pipe = e }
add_write src t overrun = t

unfoldable pub run : List Call → Traffic → Traffic
unfolding scull_p_read scull_p_write
run [] t = t
run (read count ∷ calls) t = run calls (add_read t (scull_p_read file false count all [] t.pipe))
run (write src ∷ calls) t = run calls (add_write src t (scull_p_write file false src all [] t.pipe))

-- What has been received, and what the pipe holds, is what it held first and what was sent.
pub record InOrder (before : List ℕ) (t : Traffic) : Type 0 where
  pub order : t.received ++ contents t.pipe ≡ before ++ t.sent
  pub idle : Idle t.pipe

contents-sem : (d : ScullPipe) (n : ℕ) → contents (record d { sem = n }) ≡ contents d
unfolding contents
contents-sem d n = refl

Idle-again : {d : ScullPipe} → Idle d → Idle (up (down d))
Idle-again {d} i = record {
  valid = IsValid-sem (d.sem - 1 + 1) i.valid;
  free = omega (arith, i.free);
}

read-InOrder :
    {before : List ℕ} (count : ℕ) (t : Traffic)
    → InOrder before t
    → InOrder before (add_read t (scull_p_read file false count all [] t.pipe))
unfolding scull_p_read wait_while
read-InOrder {before} count t o = elim (Bool-cases (t.pipe.rp == t.pipe.wp)) [
  | inl e ↦ rw e (record {
    order = ap₂ ◌++◌ (append-nil t.received) (contents-sem t.pipe (t.pipe.sem - 1 + 1)) ∙ o.order;
    idle = Idle-again o.idle;
  })
  | inr ne ↦
      let v = IsValid-sem (t.pipe.sem - 1) o.idle.valid in
      let k = take_bytes_lem count v (λ h. cc (sym ne ∙ eq→== t.pipe.rp t.pipe.wp h)) in
      rw (ne, k.result)
        (record {
          order =
              append_assoc t.received k.bytes (contents (up k.pipe))
              ∙ ap (λ l. t.received ++ (k.bytes ++ l)) (contents-sem k.pipe (k.pipe.sem + 1))
              ∙ ap (λ l. t.received ++ l) (k.front ∙ contents-sem t.pipe (t.pipe.sem - 1))
              ∙ o.order;
          idle = record {
            valid = IsValid-sem (k.pipe.sem + 1) k.valid;
            free = omega (arith, k.sem_eq, o.idle.free);
          };
        })
]

write-InOrder :
    {before : List ℕ} (src : List ℕ) (t : Traffic)
    → InOrder before t
    → InOrder before (add_write src t (scull_p_write file false src all [] t.pipe))
unfolding scull_p_write wait_while
write-InOrder {before} src t o = elim (Bool-cases (spacefree (down t.pipe) == 0)) [
  | inl e ↦ rw e (record {
    order =
        ap (λ l. t.received ++ l) (contents-sem t.pipe (t.pipe.sem - 1 + 1))
        ∙ o.order
        ∙ ap (λ l. before ++ l) (sym (append-nil t.sent));
    idle = Idle-again o.idle;
  })
  | inr ne ↦
      let v = IsValid-sem (t.pipe.sem - 1) o.idle.valid in
      let k = put_bytes_lem src v in
      let n = min (length src) (writable (down t.pipe)) in
      rw (ne, k.result)
        (record {
          order =
              ap (λ l. t.received ++ l)
                (contents-sem k.pipe (k.pipe.sem + 1)
                  ∙ k.back
                  ∙ ap (λ l. l ++ take n src) (contents-sem t.pipe (t.pipe.sem - 1)))
              ∙ sym (append_assoc t.received (contents t.pipe) (take n src))
              ∙ ap (λ l. l ++ take n src) o.order
              ∙ append_assoc before t.sent (take n src);
          idle = record {
            valid = IsValid-sem (k.pipe.sem + 1) k.valid;
            free = omega (arith, k.sem_eq, o.idle.free);
          };
        })
]

run-InOrder :
    {before : List ℕ} (calls : List Call) (t : Traffic)
    → InOrder before t
    → InOrder before (run calls t)
unfolding run
run-InOrder [] t o = o
run-InOrder (read count ∷ calls) t o = run-InOrder calls _ (read-InOrder count t o)
run-InOrder (write src ∷ calls) t o = run-InOrder calls _ (write-InOrder src t o)

-- A fresh start of the traffic on a pipe.
abbrev pub start : ScullPipe → Traffic
start d = record { sent = []; received = []; pipe = d }

-- For every sequence of calls of `scull_p_read` and `scull_p_write` that do not block and whose
-- copies succeed, on an idle pipe: the bytes that were read, followed by those that the pipe then
-- holds, are those that it held at first, followed by those that the writes said they accepted.
-- The pipe is idle again.
pub run_is_fifo :
    (calls : List Call) {d : ScullPipe}
    → Idle d
    → let t = run calls (start d) in
      (t.received ++ contents t.pipe ≡ contents d ++ t.sent) × Idle t.pipe
run_is_fifo calls {d} i =
    let o =
      run-InOrder calls (start d) (record { order = sym (append-nil (contents d)); idle = i }) in
    (o.order, o.idle)
