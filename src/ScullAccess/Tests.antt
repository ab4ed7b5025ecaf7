-- ===== src/ScullAccess/Tests.antt =====
-- The devices of LinuxDeviceDrivers3Ed/scull/access.c in small.
use leipocode.Base.{◌≡◌, ◌≤◌, ◌+◌, ◌-◌, ◌%◌, ◌^◌, refl, true, false, some, List, [], ◌∷◌, arith}
use leipocode.Kernel.{fails, ebusy, File}
use leipocode.Scull.{Params}
use leipocode.ScullAccess.{
  Caller, outside, backing_out, holding, scull_s_try, scull_s_release, scull_u_open, scull_c_open,
  Clones, new_device,
}
use leipocode.ScullAccess.Single.{
  State, state, Step, tries, backs_out, Steps, stay, go, nobody, holders, taken, at_most_one_holder,
}
use leipocode.ScullAccess.Sessions.{Event, opens, Session, session, Guarded, session-Guarded}
use leipocode.ScullAccess.Private.{Apart, scull_c_open-Apart}

-- Of two processes one opens the device, the other is refused, and both are done.
abbrev final : State
final = state 1 (outside ∷ outside ∷ [])

refused : Steps (state 1 (nobody 2)) final
unfolding scull_s_try scull_s_release
refused = go (tries 1 [] (outside ∷ [])) (
    go (tries 0 (holding ∷ []) []) (
      go (Step.closes 4294967295 [] (backing_out ∷ []))
        (go (backs_out 0 (outside ∷ []) []) (stay final))))

at_most_one_holder_example :
    (holders final.procs ≤ 1) × (1 ≡ (2 ^ 32 + 1 - taken final.procs) % 2 ^ 32)
at_most_one_holder_example = at_most_one_holder 2 (omega arith) refused

abbrev alice : Caller
alice = record { uid = 7; euid = 7; dac_override = false }

abbrev bob : Caller
bob = record { uid = 8; euid = 8; dac_override = false }

abbrev root : Caller
root = record { uid = 0; euid = 0; dac_override = true }

abbrev unused : Session
unused = record { users = record { count = 0; owner = 0 }; files = [] }

bob_is_refused :
    scull_u_open bob (record { count = 1; owner = 7 })
    ≡ (fails ebusy, record { count = 1; owner = 7 })
unfolding scull_u_open
bob_is_refused = refl

abbrev events : List Event
events = opens alice ∷ opens bob ∷ opens root ∷ Event.closes 1 ∷ opens alice ∷ []

session-Guarded_example : Guarded (session events unused)
session-Guarded_example =
    session-Guarded events (omega arith) (record { counted = refl; entitled = tt })

abbrev defaults : Params
defaults = record { scull_quantum = 4000; scull_qset = 1000; scull_p_buffer = 4000 }

abbrev writing : File
writing = record { write_only = true; nonblock = false; mode_read = false; mode_write = true }

abbrev clones : Clones
clones = (3, new_device defaults) ∷ []

scull_c_open-Apart_example :
    Apart defaults true 4 3 writing clones (scull_c_open defaults true (some 4) writing clones)
scull_c_open-Apart_example = scull_c_open-Apart defaults true 4 3 writing clones (omega arith)
