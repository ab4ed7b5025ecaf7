-- ===== src/ScullPipe/Open.antt =====
-- `scull_p_open` and `scull_p_release` of LinuxDeviceDrivers3Ed/scull/pipe.c, and what a change of
-- `scull_p_buffer` does to a pipe in use.
use leipocode.Base.{
  ℕ, ◌+◌, ◌-◌, ◌^◌, ◌≤◌, ◌<◌, ◌≡◌, Bool, false, Option, none, some, List, [], arith, ltb, ◌==◌,
  if◌then◌else◌, length, ◌⊎◌, inl, inr, ne→==,
}
use leipocode.Kernel.{returns, all, File, inc}
use leipocode.ScullPipe.{size_pred}
use leipocode.ScullPipe.{
  ScullPipe, overrun, spacefree, wait_while, put_bytes, scull_p_write, scull_p_poll, scull_p_open,
  scull_p_release,
}
use leipocode.ScullPipe.Valid.{IsValid, contents, length-contents, spacefree-add-contents}

-- What the counts become.
abbrev pub more : Bool → ℕ → ℕ
more b n = if b then inc n else n

-- An open that is not interrupted, for a `scull_p_buffer` between 1 and 2 ^ 31 - 1, with the
-- buffer that is there or the one that it allocates, at least as long as `scull_p_buffer`: it
-- returns 0, leaves a valid pipe with that buffer, and counts the file. The pipe then holds
-- nothing, whatever it held before.
pub scull_p_open_lem :
    (size : ℕ) (b : List ℕ) (f : File) (d : ScullPipe)
    → 0 < size
    → size < 2 ^ 31
    → size ≤ length b
    → (d.buffer ≡ some b) ⊎ (d.buffer ≡ none)
    → let (r, e) = scull_p_open size (some b) f false d in
      (r ≡ returns 0)
      × IsValid e
      × (contents e ≡ [])
      × (e.buffer ≡ some b)
      × (e.nreaders ≡ more f.mode_read d.nreaders)
      × (e.nwriters ≡ more f.mode_write d.nwriters)
unfolding scull_p_open contents
scull_p_open_lem size b f d pos small enough (inl h) = ground (arith, h)
scull_p_open_lem size b f d pos small enough (inr h) = ground (arith, h)

-- In a valid pipe `scull_p_poll` says that it is readable exactly when it holds something, and
-- writable exactly when it holds at least two bytes less than the buffer has.
pub scull_p_poll_lem :
    {d : ScullPipe}
    → IsValid d
    → scull_p_poll d ≡ (ltb 0 (length (contents d)), ltb (length (contents d) + 1) d.buffersize)
unfolding scull_p_poll
scull_p_poll_lem {d} v = ground (arith, length-contents v, spacefree-add-contents v)

-- A file that is opened and released again leaves the counts as they were, if they are below
-- 2 ^ 31; the buffer is freed if both are 0, and stays as it is if not.
pub scull_p_release-open :
    (size : ℕ) (b : List ℕ) (f : File) (others : Bool) (d : ScullPipe)
    → d.nreaders < 2 ^ 31
    → d.nwriters < 2 ^ 31
    → let o = (scull_p_open size (some b) f false d).1 in
      let e = scull_p_release f others o in
      (e.nreaders ≡ d.nreaders)
      × (e.nwriters ≡ d.nwriters)
      × (e.buffer ≡ (if d.nreaders + d.nwriters == 0 then none else o.buffer))
unfolding scull_p_open scull_p_release
scull_p_release-open size b f others d small small' = ground arith

-- A pipe that is opened again when `scull_p_buffer` is at least two bytes more than the memory
-- that it has: a write of more bytes than that memory runs over its end.
pub reopen_then_write_overruns :
    (size : ℕ) (b src : List ℕ) (fresh : Option (List ℕ)) (f g : File) (d : ScullPipe)
    → d.buffer ≡ some b
    → length b + 2 ≤ size
    → size < 2 ^ 31
    → length b < length src
    → scull_p_write g false src all [] (scull_p_open size fresh f false d).1 ≡ overrun
unfolding scull_p_open scull_p_write wait_while put_bytes spacefree
reopen_then_write_overruns size b src fresh f g d h big small long =
    let free : size_pred size ≡ size - 1 = omega arith in
    rw (h, free, ne→== (size - 1) 0 (omega arith)) (ground (arith, free))
