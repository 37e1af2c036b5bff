-- ===== src/Text/Number.antt =====
-- `to_num` reads back decimal numbers (cth/incl/cth/string.hpp).
use cth.Base.{
  ℕ, zero, suc, ◌+◌, ◌-◌, ◌*◌, ◌/◌, ◌%◌, ◌^◌, ◌<◌, ◌≡◌, ◌≢◌, ◌↔◌, refl, sym, ap, ◌∙◌, Bool, true,
  ◌&&◌, none, some, List, [], ◌∷◌, ◌++◌, arith, ltb, lt→ltb, ltb-false, if◌then◌else◌, if-true,
  if-false, dec_lt,
}
use native.Mathlib.Nat.{mod-eq_of_lt}
use cth.Text.{is_digit, read_digits, to_num}

-- The decimal digits of a number below `10 ^ fuel`, as `std::to_string` writes them.
abbrev pub decimal : ℕ → ℕ → List ℕ
decimal zero n = []
decimal (suc fuel) n =
    let front = decimal fuel (n / 10) in
    if ltb n 10 then (48 + n) ∷ [] else front ++ (48 + n % 10) ∷ []

-- A digit is read.
read_digit :
    (w num d : ℕ) (str : List ℕ)
    → d < 10
    → num * 10 + d < 2 ^ w
    → read_digits w num ((48 + d) ∷ str) ≡ read_digits w (num * 10 + d) str
unfolding read_digits
read_digit w num d str lt fits =
    if-true {b = is_digit (48 + d)} (ground arith) _ _
    ∙ ap (λ n. read_digits w n str)
        (ap (λ t. t % 2 ^ w) {x = num * 10 + (48 + d - 48)} (omega arith) ∙ mod-eq_of_lt fits)

append_digit : (xs : List ℕ) (c : ℕ) (ys : List ℕ) → (xs ++ c ∷ []) ++ ys ≡ xs ++ (c ∷ ys)
append_digit [] c ys = refl
append_digit (x ∷ xs) c ys = ap (λ l. x ∷ l) (append_digit xs c ys)

read_digits-decimal :
    (w fuel n : ℕ) (str : List ℕ)
    → n < 2 ^ w
    → n < fuel
    → read_digits w 0 (decimal fuel n ++ str) ≡ read_digits w n str
read_digits-decimal w zero n str fits lt = absurd (omega arith)
read_digits-decimal w (suc fuel) n str fits lt = elim (dec_lt n 10) [
  | yes one ↦
      ap (λ l. read_digits w 0 (l ++ str)) (if-true (lt→ltb n 10 one) _ _)
      ∙ read_digit w 0 n str one (omega arith)
      ∙ ap (λ t. read_digits w t str) (omega arith)
  | no more ↦
      ap (λ l. read_digits w 0 (l ++ str)) (if-false (ltb-false n 10 (omega arith)) _ _)
      ∙ ap (read_digits w 0) (append_digit (decimal fuel (n / 10)) (48 + n % 10) str)
      ∙ read_digits-decimal w fuel (n / 10) ((48 + n % 10) ∷ str) (omega arith) (omega arith)
      ∙ read_digit w (n / 10) (n % 10) str (omega arith) (omega arith)
      ∙ ap (λ t. read_digits w t str) {x = n / 10 * 10 + n % 10} {y = n} (omega arith)
]

++_nil : (xs : List ℕ) → xs ++ [] ≡ xs
++_nil [] = refl
++_nil (x ∷ xs) = ap (λ l. x ∷ l) (++_nil xs)

-- `to_num` of the decimal digits of a number that fits the type is this number.
pub to_num-decimal : (w n : ℕ) → n < 2 ^ w → to_num w (decimal (suc n) n) ≡ some n
unfolding to_num
to_num-decimal w n fits =
    ap (read_digits w 0) (sym (++_nil (decimal (suc n) n)))
    ∙ read_digits-decimal w (suc n) n [] fits (omega arith)
    ∙ last
  where
    last : read_digits w n [] ≡ some n
    last = unfold read_digits in refl

abbrev pub all_digits : List ℕ → Bool
all_digits [] = true
all_digits (c ∷ str) = is_digit c && all_digits str

read_digits_iff :
    (w num : ℕ) (str : List ℕ) → (read_digits w num str ≢ none) ↔ (all_digits str ≡ true)
unfolding read_digits
read_digits_iff w num [] = (λ _. refl, λ _ e. cc)
read_digits_iff w num (c ∷ str) =
    ground (arith, read_digits_iff w ((num * 10 + (c - 48)) % 2 ^ w) str)

-- `to_num` returns a number exactly where every character is a digit, the empty text included.
pub to_num_iff : (w : ℕ) (str : List ℕ) → (to_num w str ≢ none) ↔ (all_digits str ≡ true)
unfolding to_num
to_num_iff w str = read_digits_iff w 0 str
