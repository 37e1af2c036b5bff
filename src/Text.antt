-- ===== src/Text.antt =====
-- cth/incl/cth/string.hpp, with a character as its code.
pub mod Number
pub mod Split
mod Tests
use cth.Base.{
  ℕ, zero, suc, ◌+◌, ◌-◌, ◌*◌, ◌%◌, ◌^◌, Bool, true, false, not, ◌&&◌, Option, none, some, List, [],
  ◌∷◌, ◌++◌, leb, ◌==◌, if◌then◌else◌,
}

-- `c >= '0' && c <= '9'`
abbrev pub is_digit : ℕ → Bool
is_digit c = leb 48 c && leb c 57

-- The first loop of `to_num<T>` for an unsigned `T` of `w` bits, at least as wide as `int`, from the
-- number read so far; none if it stops at a character.
unfoldable pub read_digits : ℕ → ℕ → List ℕ → Option ℕ
read_digits w num [] = some num
read_digits w num (c ∷ str) =
    let rest = read_digits w ((num * 10 + (c - 48)) % 2 ^ w) str in
    if is_digit c then rest else none

unfoldable pub to_num : ℕ → List ℕ → Option ℕ
unfolding read_digits
to_num w str = read_digits w 0 str

-- A character before the first part.
abbrev pub push_front : ℕ → List (List ℕ) → List (List ℕ)
push_front c [] = (c ∷ []) ∷ []
push_front c (part ∷ parts) = (c ∷ part) ∷ parts

-- `std::views::split` at a character.
abbrev pub split_view : ℕ → List ℕ → List (List ℕ)
split_view d [] = [] ∷ []
split_view d (c ∷ str) =
    let rest = split_view d str in if c == d then [] ∷ rest else push_front c rest

-- `std::views::filter` for parts that are not empty.
abbrev pub not_empty : List (List ℕ) → List (List ℕ)
not_empty [] = []
not_empty ([] ∷ parts) = not_empty parts
not_empty ((c ∷ part) ∷ parts) = (c ∷ part) ∷ not_empty parts

-- `split(str, delimiter)` with a character as delimiter.
unfoldable pub split : ℕ → List ℕ → List (List ℕ)
split d str = not_empty (split_view d str)
