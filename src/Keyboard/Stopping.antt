-- ===== src/Keyboard/Stopping.antt =====
-- Whether the hook thread of cth_win/src/cth/win/io/keyboard.cpp ends when it is told to.
use cth.Base.{
  ℕ, ◌<◌, ◌≡◌, ◌≢◌, refl, ap, ◌∙◌, true, List, [], ◌∷◌, ◌++◌, if-true, none, some, arith,
}
use cth.Keys.{KeyUpdate}
use cth.Keyboard.Windows.{Windows}
use cth.Keyboard.Hook.{
  Message, quit, other, input, beginning, looping, finished, Setup, registered, Hook, start_hook,
  stop_hook, thread_step, loop_step, round,
}

abbrev pub post : Hook → Message → Hook
post h message = record h { messages = h.messages ++ message ∷ [] }

-- The states that the thread comes to: it goes on, is sent messages, and is told to stop.
pub data Reach (w : Windows) : Hook → Type 0 where
  starts : (id : ℕ) → 0 < id → Reach w (start_hook id)
  goes_on :
      {h later : Hook} (setup : Setup) (events : List KeyUpdate)
      → Reach w h
      → thread_step w setup h ≡ some (later, events)
      → Reach w later
  receives : {h : Hook} (message : Message) → Reach w h → Reach w (post h message)
  stops : {h : Hook} → Reach w h → Reach w (stop_hook h)

-- `_hookThreadId` names the thread exactly while it is in its loop.
pub record IsNamed (h : Hook) : Type 0 where
  pub positive : 0 < h.id
  pub unnamed : h.place ≡ beginning → h.hook_thread_id ≡ 0
  pub named : h.place ≡ looping → h.hook_thread_id ≡ h.id

round-IsNamed :
    (w : Windows) (h : Hook) (message : Message) (rest : List Message)
    → IsNamed h
    → IsNamed (round w h message rest).0
round-IsNamed w h message rest v = ground arith

thread_step-IsNamed :
    (w : Windows) (h later : Hook) (setup : Setup) (events : List KeyUpdate)
    → IsNamed h
    → thread_step w setup h ≡ some (later, events)
    → IsNamed later
unfolding thread_step
thread_step-IsNamed w h later setup events v e = ground arith

stop_hook-IsNamed : (h : Hook) → IsNamed h → IsNamed (stop_hook h)
unfolding stop_hook
stop_hook-IsNamed h v = ground arith

pub Reach-IsNamed : {w : Windows} {h : Hook} → Reach w h → IsNamed h
unfolding start_hook
Reach-IsNamed (starts id positive) = record {
  positive = positive;
  unnamed = λ _. refl;
  named = λ e. cc;
}
Reach-IsNamed {w = w} {h = later} (goes_on {h = h} setup events reached e) =
    thread_step-IsNamed w h later setup events (Reach-IsNamed reached) e
Reach-IsNamed (receives message reached) =
    let v = Reach-IsNamed reached in
    record { positive = v.positive; unnamed = v.unnamed; named = v.named }
Reach-IsNamed (stops {h = h} reached) = stop_hook-IsNamed h (Reach-IsNamed reached)

thread_step-looping :
    (w : Windows) (setup : Setup) (h : Hook)
    → h.place ≡ looping
    → thread_step w setup h ≡ loop_step w h h.messages
unfolding thread_step
thread_step-looping w setup h at = ground arith

thread_step-beginning :
    (w : Windows) (h : Hook)
    → h.place ≡ beginning
    → thread_step w registered h ≡ some (record h { place = looping; hook_thread_id = h.id }, [])
unfolding thread_step
thread_step-beginning w h at = ground arith

-- Told to stop, the loop ends with any message.
round-stopped :
    (w : Windows) (h : Hook) (message : Message) (rest : List Message)
    → h.stop ≡ true
    → round w h message rest
      ≡ (record h { place = finished; hook_thread_id = 0; messages = rest }, [])
round-stopped w h quit rest stopped = refl
round-stopped w h other rest stopped = if-true stopped _ _
round-stopped w h (input source now) rest stopped = if-true stopped _ _

loop_step-quit :
    (w : Windows) (h : Hook) (messages : List Message)
    → h.stop ≡ true
    → (later : Hook) × (loop_step w h (messages ++ quit ∷ []) ≡ some (later, []))
      × (later.place ≡ finished)
loop_step-quit w h [] stopped = (_, refl, refl)
loop_step-quit w h (message ∷ rest) stopped =
    (_, ap some (round-stopped w h message (rest ++ quit ∷ []) stopped), refl)

stop_hook-named :
    (h : Hook)
    → h.hook_thread_id ≢ 0
    → stop_hook h ≡ record h { stop = true; messages = h.messages ++ quit ∷ [] }
unfolding stop_hook
stop_hook-named h named = ground arith

stop_hook-unnamed : (h : Hook) → h.hook_thread_id ≡ 0 → stop_hook h ≡ record h { stop = true }
unfolding stop_hook
stop_hook-unnamed h unnamed = ground arith

-- A thread in its loop that is told to stop ends with its next step, whatever messages it has, and
-- passes on no further event.
pub stop_hook-finished :
    (w : Windows) (h : Hook) (setup : Setup)
    → Reach w h
    → h.place ≡ looping
    → (later : Hook) × (thread_step w setup (stop_hook h) ≡ some (later, []))
      × (later.place ≡ finished)
stop_hook-finished w h setup reached at =
    let asked : Hook = record h { stop = true; messages = h.messages ++ quit ∷ [] } in
    let ends = loop_step-quit w asked h.messages refl in
    let v = Reach-IsNamed reached in
    (
      ends.0,
      ap (thread_step w setup)
            (stop_hook-named h (λ zero. omega (arith, v.positive, v.named at, zero)))
          ∙ thread_step-looping w setup asked at
          ∙ ends.1,
      ends.2,
    )

-- A thread that is told to stop before it registered the keyboard registers it all the same, and then
-- waits for a message that nobody sent, and `stop_hook` for the thread.
pub stop_hook_waits :
    (w : Windows) (h : Hook)
    → Reach w h
    → h.place ≡ beginning
    → h.messages ≡ []
    → (later : Hook) × (thread_step w registered (stop_hook h) ≡ some (later, []))
      × (later.place ≡ looping)
      × (later.stop ≡ true)
      × (thread_step w registered later ≡ none)
stop_hook_waits w h reached at nothing = (
  record h { stop = true; place = looping; hook_thread_id = h.id },
  ap (thread_step w registered) (stop_hook-unnamed h ((Reach-IsNamed reached).unnamed at))
      ∙ thread_step-beginning w (record h { stop = true }) at,
  refl,
  refl,
  thread_step-looping w registered
        (record h { stop = true; place = looping; hook_thread_id = h.id }) refl
      ∙ ap (loop_step w (record h { stop = true; place = looping; hook_thread_id = h.id })) nothing,
)
