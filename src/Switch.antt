-- ===== src/Switch.antt =====
-- cth/incl/cth/coro/global_switch.hpp: the class `global_switch`. Here its methods run alone; `Threads`
-- interleaves them.
pub mod Laws
pub mod Threads
mod Tests
use cth.Base.{ℕ, ◌+◌, Bool, true, false, List, [], ◌∷◌, ltb, ◌==◌, if◌then◌else◌}
use cth.Base.Words.{add64, sub64}

-- A call of `_on` or of `_off`.
pub data Event : Type 0 where
  on off : Event

-- `_count` (a `size_t`), and the calls of `_on` and `_off` so far, latest first.
pub record Switch : Type 0 where
  pub count : ℕ
  pub log : List Event

pub init : Switch
init = record { count = 0; log = [] }

-- `acquire()`: what it returns is whether it called `_on`.
pub acquire : Switch → Bool × Switch
acquire s =
    if s.count == 0
    then (true, record { count = add64 s.count 1; log = on ∷ s.log })
    else (false, record s { count = add64 s.count 1 })

-- `release()`: what it returns is whether it called `_off`.
pub release : Switch → Bool × Switch
release s =
    if s.count == 1
    then (true, record { count = sub64 s.count 1; log = off ∷ s.log })
    else (false, record s { count = sub64 s.count 1 })

-- `force_off()`, and the destructor.
pub force_off : Switch → Switch
force_off s = if s.count == 0 then s else record { count = 0; log = off ∷ s.log }

abbrev pub acquire_count : Switch → ℕ
acquire_count s = s.count

abbrev pub acquired : Switch → Bool
acquired s = ltb 0 s.count
