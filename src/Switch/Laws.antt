-- ===== src/Switch/Laws.antt =====
-- Calls of a global_switch one after the other (cth/incl/cth/coro/global_switch.hpp).
use cth.Base.{refl, ◌+◌, ◌^◌, ◌<◌, ◌≡◌, ◌↔◌, Bool, true, false, List, [], ◌∷◌, arith, if◌then◌else◌}
use cth.Switch.{Event, on, off, Switch, init, acquire, release, force_off, acquired}

pub data Call : Type 0 where
  acquires releases forces : Call

unfoldable pub step : Switch → Call → Switch
step s acquires = (acquire s).1
step s releases = (release s).1
step s forces = force_off s

-- No release without an acquire before it, and no count that wraps.
abbrev pub Allowed : Switch → Call → Type 0
Allowed s acquires = s.count + 1 < 2 ^ 64
Allowed s releases = 0 < s.count
Allowed s forces = Unit

unfoldable pub run : Switch → List Call → Switch
run s [] = s
run s (c ∷ cs) = run (step s c) cs

abbrev pub AllAllowed : Switch → List Call → Type 0
AllAllowed s [] = Unit
AllAllowed s (c ∷ cs) = Allowed s c × AllAllowed (step s c) cs

-- The calls so far alternate, `_on` first; whether the last was `_on` is the second argument.
abbrev pub Alternates : List Event → Bool → Type 0
Alternates [] b = b ≡ false
Alternates (on ∷ es) b = (b ≡ true) × Alternates es false
Alternates (off ∷ es) b = (b ≡ false) × Alternates es true

-- The switch is on exactly while it is acquired, and was never switched twice in a row.
pub record IsSound (s : Switch) : Type 0 where
  pub small : s.count < 2 ^ 64
  pub alternates : Alternates s.log (acquired s)

pub step-IsSound : (s : Switch) (c : Call) → IsSound s → Allowed s c → IsSound (step s c)
unfolding step acquire release force_off
step-IsSound s acquires v h = ground arith
step-IsSound s releases v h = ground arith
step-IsSound s forces v h = ground arith

pub acquire-count : (s : Switch) → s.count + 1 < 2 ^ 64 → (acquire s).1.count ≡ s.count + 1
unfolding acquire
acquire-count s small = ground arith

pub release-count :
    (s : Switch) → 0 < s.count → s.count < 2 ^ 64 → (release s).1.count + 1 ≡ s.count
unfolding release
release-count s positive small = ground arith

pub init-count : init.count ≡ 0
unfolding init
init-count = refl

pub init-IsSound : IsSound init
unfolding init
init-IsSound = ground arith

run-IsSound :
    (s : Switch) (calls : List Call) → IsSound s → AllAllowed s calls → IsSound (run s calls)
unfolding run
run-IsSound s [] v h = v
run-IsSound s (c ∷ cs) v h = run-IsSound (step s c) cs (step-IsSound s c v h.0) h.1

-- After any calls one after the other, no release without an acquire before it, the switch was turned on
-- and off in turn, on first, and was last turned on exactly if its count is positive.
pub run-init-IsSound : (calls : List Call) → AllAllowed init calls → IsSound (run init calls)
run-init-IsSound calls h = run-IsSound init calls init-IsSound h

-- `acquire` returns true exactly where the switch was not acquired, and then alone calls `_on`;
-- `release` returns true exactly where it gave up the last acquire, and then alone calls `_off`.
pub acquire-release_report :
    (s : Switch)
    → s.count + 1 < 2 ^ 64
    → (((acquire s).0 ≡ true) ↔ (acquired s ≡ false))
      × ((acquire s).1.log ≡ (if (acquire s).0 then on ∷ s.log else s.log))
      × (0 < s.count
          → (((release s).0 ≡ true) ↔ (acquired (release s).1 ≡ false))
            × ((release s).1.log ≡ (if (release s).0 then off ∷ s.log else s.log))
            × ((release s).1.count + 1 ≡ s.count))
unfolding acquire release
acquire-release_report s h = ground arith
