-- ===== src/Switch/Tests.antt =====
-- Small runs of the global_switch, and its theorems applied to them.
use cth.Base.{◌≡◌, refl, List, [], ◌∷◌, arith}
use cth.Switch.{Switch, on, off, init, acquire, release, force_off}
use cth.Switch.Laws.{Call, acquires, releases, forces, run, step, IsSound, run-init-IsSound}
use cth.Switch.Threads.{System, idle, Steps, acquired_but_off}

abbrev calls : List Call
calls = acquires ∷ acquires ∷ releases ∷ forces ∷ acquires ∷ []

calls_log : (run init calls).log ≡ on ∷ off ∷ on ∷ []
unfolding run step init acquire release force_off
calls_log = refl

run-init-IsSound_example : IsSound (run init calls)
unfolding step init acquire release force_off
run-init-IsSound_example =
    run-init-IsSound calls (omega arith, (omega arith, (omega arith, (tt, (omega arith, tt)))))

abbrev twice : Switch
twice = record { count = 2; log = on ∷ [] }

-- One thread holds the switch, and no thread is in a call.
abbrev held : System
held = record { count = 1; log = on ∷ []; pcs = λ _. idle }

acquired_but_off_example :
    (t : System) × Steps held t
    × (t.count ≡ 1)
    × (t.log ≡ off ∷ on ∷ on ∷ [])
    × (t.pcs 0 ≡ idle)
    × (t.pcs 1 ≡ idle)
acquired_but_off_example = acquired_but_off held 0 1 (λ e. omega arith) refl refl refl
