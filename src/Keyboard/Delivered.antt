-- ===== src/Keyboard/Delivered.antt =====
-- That each event queue gives out the events of the hook in their order, none lost and none twice
-- (cth_win/src/cth/win/io/keyboard.cpp).
use cth.Base.{
  ℕ, ◌+◌, ◌≤◌, ◌<◌, ◌≡◌, ◌≢◌, refl, sym, ap, subst, ◌∙◌, Bool, true, false, List, [], ◌∷◌, ◌++◌,
  length-append, replicate, ◌==◌, ==_iff, if◌then◌else◌, Bool-cases, inl, inr, Option, none, some,
  arith,
}
use mathlib.Core.List.{append-nil, append_assoc}
use cth.Keys.{Key, code, KeyUpdate}
use cth.Switch.Laws.{step, step-IsSound, acquires, releases, acquire-count, release-count}
use cth.Keyboard.Queue.{empty, pop, pop_queue, clear, pop_queue_all, clear_empties}
use cth.Keyboard.Manager.{write, push_all}
use cth.Keyboard.Subscribed.{occurs-append, erase-occurs, erase-length, push_all-occurs}
use cth.Keyboard.Delivery.{
  Action, constructs, destroys, raises, pops, pops_all, clears, occurs, after_pop, first_of,
  Allowed, raised, taken, History, note, IsDelivering,
}

-- To prove something of the answer of a test for equality, both answers are told what they mean.
module _ (lhs rhs : ℕ) (P : Bool → Type 0) where
  answered : (lhs ≡ rhs → P true) → (lhs ≢ rhs → P false) → P (lhs == rhs)
  answered at_same at_other = elim (Bool-cases (lhs == rhs)) [
    | inl same ↦ subst P (sym same) (at_same ((==_iff lhs rhs).0 same))
    | inr other ↦ subst P (sym other) (at_other (λ same. ==_ne lhs rhs same other))
  ]
    where
      ==_ne : (m n : ℕ) → m ≡ n → (m == n) ≡ false → ⊥
      ==_ne m n same other = ground arith

pop-full : (events : List KeyUpdate) → empty events ≡ false → pop events ≡ none → ⊥
pop-full [] full e = cc
pop-full (first ∷ others) full e = cc

pop-parts :
    (events : List KeyUpdate) (first : KeyUpdate) (rest : List KeyUpdate)
    → pop events ≡ some (first, rest)
    → first ∷ rest ≡ events
pop-parts [] first rest e = cc
pop-parts (head ∷ others) first rest e =
    ap (λ found. elim found [ none ↦ [] | some parts ↦ parts.0 ∷ parts.1 ]) (sym e)

module _ (h : History) (v : IsDelivering h) (queue : ℕ) where
  other_once :
      (at : ℕ)
      → occurs (h.manager.queues ++ queue ∷ []) at ≡ 1
      → at ≢ queue
      → occurs h.manager.queues at ≡ 1
  other_once at one other = ground (arith, occurs-append h.manager.queues queue at)

  constructs_faithful :
      (at : ℕ)
      → occurs (h.manager.queues ++ queue ∷ []) at ≡ 1
      → taken h.manager h.taken_log (constructs queue) at ++ write h.manager.contents queue [] at
        ≡ raised h.raised_log (constructs queue) at
  constructs_faithful at one =
      answered at queue
        (λ same.
          (if same then [] else h.taken_log at) ++ (if same then [] else h.manager.contents at)
          ≡ (if same then [] else h.raised_log at))
        (λ same. refl) (λ other. v.faithful at (other_once at one other))

  constructs_distinct :
      (at : ℕ) → occurs h.manager.queues queue ≡ 0 → occurs (h.manager.queues ++ queue ∷ []) at ≤ 1
  constructs_distinct at absent =
      subst (λ n. n ≤ 1) (sym (occurs-append h.manager.queues queue at))
        (answered queue at (λ same. occurs h.manager.queues at + (if same then 1 else 0) ≤ 1)
          (λ same. omega (arith, absent, ap (occurs h.manager.queues) same))
          (λ other. omega (arith, v.distinct at)))

  note-constructs : Allowed h.manager (constructs queue) → IsDelivering (note h (constructs queue))
  unfolding step
  note-constructs allowed = record {
    distinct = λ at. constructs_distinct at allowed.0;
    counted = omega (
      arith,
      acquire-count h.manager.hook_switch,
      length-append h.manager.queues (queue ∷ []),
      v.counted,
      allowed.1,
    );
    sound =
        step-IsSound h.manager.hook_switch acquires v.sound (omega (arith, v.counted, allowed.1));
    faithful = constructs_faithful;
  }

  note-destroys : Allowed h.manager (destroys queue) → IsDelivering (note h (destroys queue))
  unfolding step
  note-destroys once = record {
    distinct = λ at. ground (arith, erase-occurs h.manager.queues queue at, v.distinct at);
    counted = omega (
      arith,
      release-count h.manager.hook_switch positive v.sound.small,
      erase-length h.manager.queues queue,
      v.counted,
      once,
    );
    sound = step-IsSound h.manager.hook_switch releases v.sound positive;
    faithful =
        λ at one. v.faithful at (ground (arith, erase-occurs h.manager.queues queue at, one));
  }
    where
      positive : 0 < h.manager.hook_switch.count
      positive = omega (arith, erase-length h.manager.queues queue, v.counted, once)

  -- Events taken from the front of one queue.
  takes :
      (given rest : List KeyUpdate)
      → given ++ rest ≡ h.manager.contents queue
      → (at : ℕ) → occurs h.manager.queues at ≡ 1
      → (if at == queue then h.taken_log at ++ given else h.taken_log at)
          ++ write h.manager.contents queue rest at
        ≡ h.raised_log at
  takes given rest parts at once =
      answered at queue
        (λ same.
          (if same then h.taken_log at ++ given else h.taken_log at)
            ++ (if same then rest else h.manager.contents at)
          ≡ h.raised_log at)
        (λ same.
          append_assoc (h.taken_log at) given rest
          ∙ ap (λ events. h.taken_log at ++ events) (parts ∙ ap h.manager.contents (sym same))
          ∙ v.faithful at once)
        (λ other. v.faithful at once)

  popped :
      (found : Option (KeyUpdate × List KeyUpdate))
      → pop (h.manager.contents queue) ≡ found
      → empty (h.manager.contents queue) ≡ false
      → IsDelivering (record {
        manager = after_pop h.manager queue found;
        raised_log = h.raised_log;
        taken_log = λ at. if at == queue then h.taken_log at ++ first_of found else h.taken_log at;
      })
  popped none e full = absurd (pop-full (h.manager.contents queue) full e)
  popped (some (first, rest)) e full = record {
    distinct = v.distinct;
    counted = v.counted;
    sound = v.sound;
    faithful = takes (first ∷ []) rest (pop-parts (h.manager.contents queue) first rest e);
  }

  note-pops : Allowed h.manager (pops queue) → IsDelivering (note h (pops queue))
  note-pops allowed = popped (pop (h.manager.contents queue)) refl allowed.1

  note-pops_all : IsDelivering (note h (pops_all queue))
  note-pops_all = record {
    distinct = v.distinct;
    counted = v.counted;
    sound = v.sound;
    faithful =
        takes (pop_queue (h.manager.contents queue)).0 (pop_queue (h.manager.contents queue)).1 (
          ap (λ parts. parts.0 ++ parts.1) (pop_queue_all (h.manager.contents queue))
          ∙ append-nil (h.manager.contents queue));
  }

  note-clears : IsDelivering (note h (clears queue))
  note-clears = record {
    distinct = v.distinct;
    counted = v.counted;
    sound = v.sound;
    faithful = takes (h.manager.contents queue) (clear (h.manager.contents queue)) (
        ap (λ rest. h.manager.contents queue ++ rest) (clear_empties (h.manager.contents queue))
        ∙ append-nil (h.manager.contents queue));
  }

module _ (h : History) (v : IsDelivering h) (update : KeyUpdate) where
  -- `lost` is whether the event is of no key.
  raised_faithful :
      (lost : Bool) (at : ℕ)
      → occurs h.manager.queues at ≡ 1
      → h.taken_log at
          ++ (if lost then h.manager else record h.manager {
            contents = push_all h.manager.queues update h.manager.contents;
          }).contents
              at
        ≡ (if lost then h.raised_log at else h.raised_log at ++ update ∷ [])
  raised_faithful true at once = v.faithful at once
  raised_faithful false at once =
      ap (λ events. h.taken_log at ++ events)
        (push_all-occurs h.manager.queues update h.manager.contents at
          ∙ ap (λ n. h.manager.contents at ++ replicate n update) once)
      ∙ sym (append_assoc (h.taken_log at) (h.manager.contents at) (update ∷ []))
      ∙ ap (λ events. events ++ update ∷ []) (v.faithful at once)

  raises-IsDelivering :
      (lost : Bool)
      → IsDelivering (record {
        manager = if lost then h.manager else record h.manager {
          contents = push_all h.manager.queues update h.manager.contents;
        };
        raised_log = λ at. if lost then h.raised_log at else h.raised_log at ++ update ∷ [];
        taken_log = h.taken_log;
      })
  raises-IsDelivering true = v
  raises-IsDelivering false = record {
    distinct = v.distinct;
    counted = v.counted;
    sound = v.sound;
    faithful = raised_faithful false;
  }

pub note-IsDelivering :
    (h : History) (a : Action) → IsDelivering h → Allowed h.manager a → IsDelivering (note h a)
note-IsDelivering h (constructs queue) v allowed = note-constructs h v queue allowed
note-IsDelivering h (destroys queue) v allowed = note-destroys h v queue allowed
note-IsDelivering h (raises update) v allowed =
    raises-IsDelivering h v update (code update.data_.ex_key.key == code Key.none)
note-IsDelivering h (pops queue) v allowed = note-pops h v queue allowed
note-IsDelivering h (pops_all queue) v allowed = note-pops_all h v queue
note-IsDelivering h (clears queue) v allowed = note-clears h v queue
