-- ===== src/Keyboard/Subscribed.antt =====
-- The list of subscribed queues of `hook_manager` (cth_win/src/cth/win/io/keyboard.cpp) as it grows
-- and shrinks, and the loop over it.
use cth.Base.{
  ℕ, suc, ◌+◌, ◌≡◌, refl, sym, ap, ◌∙◌, false, List, [], ◌∷◌, ◌++◌, length, ◌==◌, ==_iff,
  if◌then◌else◌, if-true, if-false, Bool-cases, inl, inr, arith, replicate,
}
use mathlib.Core.List.{append-nil, append_assoc}
use cth.Keys.{KeyUpdate}
use cth.Keyboard.Queue.{push}
use cth.Keyboard.Manager.{write, erase, push_all}
use cth.Keyboard.Delivery.{occurs}

pub occurs-append :
    (queues : List ℕ) (queue at : ℕ)
    → occurs (queues ++ queue ∷ []) at ≡ occurs queues at + (if queue == at then 1 else 0)
occurs-append [] queue at = ground arith
occurs-append (first ∷ others) queue at = ground (arith, occurs-append others queue at)

pub erase-occurs :
    (queues : List ℕ) (queue at : ℕ)
    → occurs (erase queues queue) at ≡ (if queue == at then 0 else occurs queues at)
erase-occurs [] queue at = ground arith
erase-occurs (first ∷ others) queue at = ground (arith, erase-occurs others queue at)

pub erase-length :
    (queues : List ℕ) (queue : ℕ)
    → length (erase queues queue) + occurs queues queue ≡ length queues
erase-length [] queue = refl
erase-length (first ∷ others) queue = ground (arith, erase-length others queue)

pub write-same :
    (contents : ℕ → List KeyUpdate) (queue : ℕ) (events : List KeyUpdate)
    → write contents queue events queue ≡ events
write-same contents queue events = if-true ((==_iff queue queue).1 refl) events (contents queue)

pub write-other :
    (contents : ℕ → List KeyUpdate) (queue at : ℕ) (events : List KeyUpdate)
    → (at == queue) ≡ false
    → write contents queue events at ≡ contents at
write-other contents queue at events other = if-false other events (contents at)

==-flip : (lhs rhs : ℕ) → (lhs == rhs) ≡ false → (rhs == lhs) ≡ false
==-flip lhs rhs other = ground arith

-- The loop pushes the event onto a queue as often as it is subscribed.
pub push_all-occurs :
    (queues : List ℕ) (update : KeyUpdate) (contents : ℕ → List KeyUpdate) (at : ℕ)
    → push_all queues update contents at ≡ contents at ++ replicate (occurs queues at) update
push_all-occurs [] update contents at = sym (append-nil (contents at))
push_all-occurs (first ∷ others) update contents at = elim (Bool-cases (first == at)) [
  | inl same ↦
      push_all-occurs others update (write contents first (push (contents first) update)) at
      ∙ ap (λ events. events ++ replicate (occurs others at) update)
          (ap (λ queue. write contents queue (push (contents queue) update) at)
              ((==_iff first at).0 same)
            ∙ write-same contents at (push (contents at) update))
      ∙ append_assoc (contents at) (update ∷ []) (replicate (occurs others at) update)
      ∙ ap (λ n. contents at ++ replicate n update)
          (sym (if-true same (suc (occurs others at)) (occurs others at)))
  | inr other ↦
      push_all-occurs others update (write contents first (push (contents first) update)) at
      ∙ ap (λ events. events ++ replicate (occurs others at) update)
          (write-other contents first at (push (contents first) update) (==-flip first at other))
      ∙ ap (λ n. contents at ++ replicate n update)
          (sym (if-false other (suc (occurs others at)) (occurs others at)))
]
