-- ===== src/Keys/Symbols.antt =====
-- `to_utf8_string` of cth/incl/cth/io/keybd/keys.hpp, as it is built for Windows.
use Prim.Native.String.{String, compare}
use Prim.Native.Nat.{Ordering}
use cth.Base.{◌≡◌, refl, ap, sym, ◌∙◌, List, [], ◌∷◌, ◌==◌, ==_iff}
use cth.Keys.{Key, code}
use cth.Keys.Codes.{all_keys, code_injective, for_all_keys}

unfoldable pub to_utf8_string : Key → String
to_utf8_string Key.none = "∅"
to_utf8_string Key.a = "A"
to_utf8_string Key.b = "B"
to_utf8_string Key.c = "C"
to_utf8_string Key.d = "D"
to_utf8_string Key.e = "E"
to_utf8_string Key.f = "F"
to_utf8_string Key.g = "G"
to_utf8_string Key.h = "H"
to_utf8_string Key.i = "I"
to_utf8_string Key.j = "J"
to_utf8_string Key.k = "K"
to_utf8_string Key.l = "L"
to_utf8_string Key.m = "M"
to_utf8_string Key.n = "N"
to_utf8_string Key.o = "O"
to_utf8_string Key.p = "P"
to_utf8_string Key.q = "Q"
to_utf8_string Key.r = "R"
to_utf8_string Key.s = "S"
to_utf8_string Key.t = "T"
to_utf8_string Key.u = "U"
to_utf8_string Key.v = "V"
to_utf8_string Key.w = "W"
to_utf8_string Key.x = "X"
to_utf8_string Key.y = "Y"
to_utf8_string Key.z = "Z"
to_utf8_string Key.digit_0 = "0"
to_utf8_string Key.digit_1 = "1"
to_utf8_string Key.digit_2 = "2"
to_utf8_string Key.digit_3 = "3"
to_utf8_string Key.digit_4 = "4"
to_utf8_string Key.digit_5 = "5"
to_utf8_string Key.digit_6 = "6"
to_utf8_string Key.digit_7 = "7"
to_utf8_string Key.digit_8 = "8"
to_utf8_string Key.digit_9 = "9"
to_utf8_string Key.space = "⎵"
to_utf8_string Key.backtick = "`"
to_utf8_string Key.minus = "−"
to_utf8_string Key.equal = "="
to_utf8_string Key.open_bracket = "["
to_utf8_string Key.close_bracket = "]"
to_utf8_string Key.backslash = "\\"
to_utf8_string Key.semicolon = ";"
to_utf8_string Key.quote = "'"
to_utf8_string Key.comma = ","
to_utf8_string Key.period = "."
to_utf8_string Key.slash = "/"
to_utf8_string Key.hash = "#"
to_utf8_string Key.plus = "+"
to_utf8_string Key.star = "*"
to_utf8_string Key.less_than = "<"
to_utf8_string Key.backspace = "⌫"
to_utf8_string Key.caps_lock = "⇪"
to_utf8_string Key.delete = "Del"
to_utf8_string Key.end = "End"
to_utf8_string Key.enter = "↵"
to_utf8_string Key.escape = "Esc"
to_utf8_string Key.home = "Home"
to_utf8_string Key.insert = "Ins"
to_utf8_string Key.page_down = "⇟"
to_utf8_string Key.page_up = "⇞"
to_utf8_string Key.tab = "⇥"
to_utf8_string Key.arrow_down = "↓"
to_utf8_string Key.arrow_left = "←"
to_utf8_string Key.arrow_right = "→"
to_utf8_string Key.arrow_up = "↑"
to_utf8_string Key.alt = "⌥"
to_utf8_string Key.control = "Ctrl"
to_utf8_string Key.shift = "⇧"
to_utf8_string Key.meta = "Meta"
to_utf8_string Key.platform = "WIN"
to_utf8_string Key.f1 = "F1"
to_utf8_string Key.f2 = "F2"
to_utf8_string Key.f3 = "F3"
to_utf8_string Key.f4 = "F4"
to_utf8_string Key.f5 = "F5"
to_utf8_string Key.f6 = "F6"
to_utf8_string Key.f7 = "F7"
to_utf8_string Key.f8 = "F8"
to_utf8_string Key.f9 = "F9"
to_utf8_string Key.f10 = "F10"
to_utf8_string Key.f11 = "F11"
to_utf8_string Key.f12 = "F12"
to_utf8_string Key.num_lock = "NumLock"
to_utf8_string Key.custom_0 = "Custom0"
to_utf8_string Key.custom_1 = "Custom1"
to_utf8_string Key.custom_2 = "Custom2"
to_utf8_string Key.custom_3 = "Custom3"
to_utf8_string Key.custom_4 = "Custom4"

-- The first key of a list that has a symbol.
key_named : String → List Key → Key
key_named text [] = Key.none
key_named text (first ∷ others) = elim (compare text (to_utf8_string first)) [
  | Ordering.eq ↦ first
  | _ ↦ key_named text others
]

key_named-to_utf8_string : (key : Key) → key_named (to_utf8_string key) all_keys ≡ key
unfolding key_named to_utf8_string
key_named-to_utf8_string key = code_injective (key_named (to_utf8_string key) all_keys) key (
    (==_iff (code (key_named (to_utf8_string key) all_keys)) (code key)).0 (
      for_all_keys (λ which. code (key_named (to_utf8_string which) all_keys) == code which) refl
        key))

-- Two keys with the same symbol are the same key.
pub to_utf8_string_injective : (lhs rhs : Key) → to_utf8_string lhs ≡ to_utf8_string rhs → lhs ≡ rhs
to_utf8_string_injective lhs rhs same =
    sym (key_named-to_utf8_string lhs)
    ∙ ap (λ text. key_named text all_keys) same
    ∙ key_named-to_utf8_string rhs
