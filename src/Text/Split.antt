-- ===== src/Text/Split.antt =====
-- The parts of `split` (cth/incl/cth/string.hpp).
use cth.Base.{
  ℕ, ◌≡◌, ◌≢◌, ◌↔◌, refl, sym, ap, subst, ◌∙◌, List, [], ◌∷◌, ◌++◌, arith, ◌==◌, ==_iff, if-true,
  if-false, Bool-cases, inl, inr, false,
}
use cth.Text.{push_front, split_view, not_empty, split}

-- No character is the delimiter.
abbrev pub Avoids : ℕ → List ℕ → Type 0
Avoids d [] = Unit
Avoids d (c ∷ part) = (c ≢ d) × Avoids d part

-- A part that is not empty and has no delimiter.
abbrev pub IsPart : ℕ → List ℕ → Type 0
IsPart d [] = ⊥
IsPart d (c ∷ part) = Avoids d (c ∷ part)

-- A text that reads as these parts: delimiters may stand anywhere between and around them, and two
-- parts have a delimiter between them.
pub data IsSplit (d : ℕ) : List ℕ → List (List ℕ) → Type 0 where
  nothing : IsSplit d [] []
  skip : {str : List ℕ} {parts : List (List ℕ)} → IsSplit d str parts → IsSplit d (d ∷ str) parts
  last : (part : List ℕ) → IsPart d part → IsSplit d part (part ∷ [])
  before :
      (part : List ℕ) {str : List ℕ} {parts : List (List ℕ)}
      → IsPart d part
      → IsSplit d str parts
      → IsSplit d (part ++ d ∷ str) (part ∷ parts)

view_at : (d : ℕ) (str : List ℕ) → split_view d (d ∷ str) ≡ [] ∷ split_view d str
view_at d str = if-true ((==_iff d d).1 refl) _ _

view_other :
    (d c : ℕ) (str : List ℕ) → c ≢ d → split_view d (c ∷ str) ≡ push_front c (split_view d str)
view_other d c str ne = if-false (differs c d ne) _ _
  where
    differs : (a b : ℕ) → a ≢ b → (a == b) ≡ false
    differs a b h = ground arith

view_last : (d : ℕ) (part : List ℕ) → Avoids d part → split_view d part ≡ part ∷ []
view_last d [] h = refl
view_last d (c ∷ part) h = view_other d c part h.0 ∙ ap (push_front c) (view_last d part h.1)

view_before :
    (d : ℕ) (part str : List ℕ)
    → Avoids d part
    → split_view d (part ++ d ∷ str) ≡ part ∷ split_view d str
view_before d [] str h = view_at d str
view_before d (c ∷ part) str h =
    view_other d c (part ++ d ∷ str) h.0 ∙ ap (push_front c) (view_before d part str h.1)

IsPart-Avoids : (d : ℕ) (part : List ℕ) → IsPart d part → Avoids d part
IsPart-Avoids d [] h = tt
IsPart-Avoids d (c ∷ part) h = h

keeps_part :
    (d : ℕ) (part : List ℕ) (parts : List (List ℕ))
    → IsPart d part
    → not_empty (part ∷ parts) ≡ part ∷ not_empty parts
keeps_part d [] parts h = absurd h
keeps_part d (c ∷ part) parts h = refl

-- A text reads as one list of parts only.
IsSplit-view :
    (d : ℕ) {str : List ℕ} {parts : List (List ℕ)}
    → IsSplit d str parts
    → not_empty (split_view d str) ≡ parts
IsSplit-view d nothing = refl
IsSplit-view d (skip {str} rest) = ap not_empty (view_at d str) ∙ IsSplit-view d rest
IsSplit-view d (last part h) =
    ap not_empty (view_last d part (IsPart-Avoids d part h)) ∙ keeps_part d part [] h
IsSplit-view d (before part {str} h rest) =
    ap not_empty (view_before d part str (IsPart-Avoids d part h))
    ∙ keeps_part d part (split_view d str) h
    ∙ ap (λ l. part ∷ l) (IsSplit-view d rest)

-- Characters before the first part.
abbrev push_part : List ℕ → List (List ℕ) → List (List ℕ)
push_part part [] = part ∷ []
push_part part (first ∷ parts) = (part ++ first) ∷ parts

append-nil : (xs : List ℕ) → xs ++ [] ≡ xs
append-nil [] = refl
append-nil (x ∷ xs) = ap (λ l. x ∷ l) (append-nil xs)

append_later : (xs : List ℕ) (c : ℕ) (ys : List ℕ) → (xs ++ c ∷ []) ++ ys ≡ xs ++ c ∷ ys
append_later [] c ys = refl
append_later (x ∷ xs) c ys = ap (λ l. x ∷ l) (append_later xs c ys)

push_part-push_front :
    (part : List ℕ) (c : ℕ) (parts : List (List ℕ))
    → push_part part (push_front c parts) ≡ push_part (part ++ c ∷ []) parts
push_part-push_front part c [] = refl
push_part-push_front part c (first ∷ parts) = ap (λ l. l ∷ parts) (sym (append_later part c first))

append-Avoids : (d : ℕ) (part : List ℕ) (c : ℕ) → Avoids d part → c ≢ d → Avoids d (part ++ c ∷ [])
append-Avoids d [] c h ne = (ne, tt)
append-Avoids d (x ∷ part) c h ne = (h.0, append-Avoids d part c h.1 ne)

push_nothing : (d : ℕ) (str : List ℕ) → push_part [] (split_view d str) ≡ split_view d str
push_nothing d [] = refl
push_nothing d (c ∷ str) = elim (Bool-cases (c == d)) [
  | inl at ↦ ap (push_part []) (if-true at _ _) ∙ sym (if-true at _ _)
  | inr other ↦
      ap (push_part []) (if-false other _ _)
      ∙ starts c (split_view d str)
      ∙ sym (if-false other _ _)
]
  where
    starts :
        (c : ℕ) (parts : List (List ℕ)) → push_part [] (push_front c parts) ≡ push_front c parts
    starts c [] = refl
    starts c (first ∷ parts) = refl

last-IsSplit : (d : ℕ) (part : List ℕ) → Avoids d part → IsSplit d part (not_empty (part ∷ []))
last-IsSplit d [] h = nothing
last-IsSplit d (c ∷ part) h = last (c ∷ part) h

before-IsSplit :
    (d : ℕ) (part str : List ℕ) (parts : List (List ℕ))
    → Avoids d part
    → IsSplit d str (not_empty parts)
    → IsSplit d (part ++ d ∷ str) (not_empty (part ∷ parts))
before-IsSplit d [] str parts h rest = skip rest
before-IsSplit d (c ∷ part) str parts h rest = before (c ∷ part) h rest

-- The view reads on behind a part that has begun.
view-IsSplit :
    (d : ℕ) (str part : List ℕ)
    → Avoids d part
    → IsSplit d (part ++ str) (not_empty (push_part part (split_view d str)))
view-IsSplit d [] part h =
    subst (λ l. IsSplit d l (not_empty (l ∷ []))) (sym (append-nil part)) (last-IsSplit d part h)
view-IsSplit d (c ∷ str) part h = elim (Bool-cases (c == d)) [
  | inl at ↦
      subst (λ l. IsSplit d (part ++ c ∷ str) (not_empty (push_part part l))) (sym (if-true at _ _))
        (subst (λ l. IsSplit d (part ++ c ∷ str) (not_empty (l ∷ split_view d str)))
          (sym (append-nil part))
          (subst (λ e. IsSplit d (part ++ e ∷ str) (not_empty (part ∷ split_view d str)))
            (sym ((==_iff c d).0 at))
            (before-IsSplit d part str (split_view d str) h (
              subst (λ l. IsSplit d str (not_empty l)) (push_nothing d str)
                (view-IsSplit d str [] tt)))))
  | inr other ↦
      subst (λ l. IsSplit d (part ++ c ∷ str) (not_empty (push_part part l)))
        (sym (if-false other _ _))
        (subst (λ l. IsSplit d (part ++ c ∷ str) (not_empty l))
          (sym (push_part-push_front part c (split_view d str)))
          (subst (λ l. IsSplit d l (not_empty (push_part (part ++ c ∷ []) (split_view d str))))
            (append_later part c str)
            (view-IsSplit d str (part ++ c ∷ [])
              (append-Avoids d part c h (ground (arith, other))))))
]

-- `split` returns exactly the parts that the text reads as: no part is empty or has a delimiter,
-- between two parts stands at least one delimiter, and the text is these parts and delimiters.
pub split_iff :
    (d : ℕ) (str : List ℕ) (parts : List (List ℕ)) → IsSplit d str parts ↔ (split d str ≡ parts)
unfolding split
split_iff d str parts = (
  IsSplit-view d,
  λ e. subst (IsSplit d str) (ap not_empty (push_nothing d str) ∙ e) (view-IsSplit d str [] tt),
)
