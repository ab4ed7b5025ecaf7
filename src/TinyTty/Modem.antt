-- ===== src/TinyTty/Modem.antt =====
-- The modem lines and the writes of LinuxDeviceDrivers3Ed/tty/tiny_tty.c.
use leipocode.Base.{ℕ, ◌≡◌, ◌≢◌, refl, Bool, true, false, ◌||◌, some, List, if◌then◌else◌, ne→==}
use leipocode.Kernel.{einval, returns, fails}
use leipocode.TinyTty.{
  Port, Tiocm, rts_if, tiny_tiocmget, tiny_tiocmset, tiny_write, tiny_write_room,
}

-- `tiny_tiocmset` and then `tiny_tiocmget`: DTR is as it was, whatever is to be set or cleared; and a
-- request for DTR goes to RTS, which is cleared by either, or else set by either, or else as it was.
pub dtr_sets_rts :
    (set clear : Tiocm) (p : Port)
    → let after = tiny_tiocmget (tiny_tiocmset set clear p) in
      (after.dtr ≡ (tiny_tiocmget p).dtr)
      × (after.rts ≡ (
          if clear.dtr || clear.rts
          then false
          else if set.dtr || set.rts
          then true
          else (tiny_tiocmget p).rts))
unfolding tiny_tiocmget tiny_tiocmset
dtr_sets_rts set clear p = by_bits clear.dtr clear.rts set.dtr set.rts
  where
    by_bits :
        (a b c d : Bool)
        → let m = rts_if a false (rts_if b false (rts_if c true (rts_if d true p.mcr))) in
          (m.dtr ≡ p.mcr.dtr)
          × (m.rts ≡ (if a || b then false else if c || d then true else p.mcr.rts))
    by_bits true true true true = (refl, refl)
    by_bits true true true false = (refl, refl)
    by_bits true true false true = (refl, refl)
    by_bits true true false false = (refl, refl)
    by_bits true false true true = (refl, refl)
    by_bits true false true false = (refl, refl)
    by_bits true false false true = (refl, refl)
    by_bits true false false false = (refl, refl)
    by_bits false true true true = (refl, refl)
    by_bits false true true false = (refl, refl)
    by_bits false true false true = (refl, refl)
    by_bits false true false false = (refl, refl)
    by_bits false false true true = (refl, refl)
    by_bits false false true false = (refl, refl)
    by_bits false false false true = (refl, refl)
    by_bits false false false false = (refl, refl)

-- An open port says that it has room for 255 bytes, and no write to it succeeds.
pub room_and_no_write :
    (buffer : List ℕ) (p : Port)
    → p.open_count ≢ 0
    → (tiny_write_room (some p) ≡ returns 255) × (tiny_write buffer (some p) ≡ fails einval)
unfolding tiny_write_room tiny_write
room_and_no_write buffer p open_port = rw (ne→== p.open_count 0 open_port) (refl, refl)
