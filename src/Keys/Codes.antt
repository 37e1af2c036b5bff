-- ===== src/Keys/Codes.antt =====
-- The values of the enumeration `Key` (cth/incl/cth/io/keybd/keys.hpp), and the casts from and to
-- them.
use cth.Base.{
  ℕ, zero, suc, ◌<◌, ◌≡◌, refl, sym, ap, subst, ◌∙◌, Bool, true, ◌&&◌, List, [], ◌∷◌, length,
  get_or, arith,
}
use cth.Keys.{Key, code, keys_size}

-- The keys in the order of the enumeration.
abbrev pub all_keys : List Key
all_keys =
    Key.none ∷ Key.a ∷ Key.b ∷ Key.c ∷ Key.d ∷ Key.e ∷ Key.f ∷ Key.g ∷ Key.h ∷ Key.i ∷ Key.j ∷ Key.k
    ∷ Key.l ∷ Key.m ∷ Key.n ∷ Key.o ∷ Key.p ∷ Key.q ∷ Key.r ∷ Key.s ∷ Key.t ∷ Key.u ∷ Key.v ∷ Key.w
    ∷ Key.x ∷ Key.y ∷ Key.z ∷ Key.digit_0 ∷ Key.digit_1 ∷ Key.digit_2 ∷ Key.digit_3 ∷ Key.digit_4
    ∷ Key.digit_5 ∷ Key.digit_6 ∷ Key.digit_7 ∷ Key.digit_8 ∷ Key.digit_9 ∷ Key.space ∷ Key.backtick
    ∷ Key.minus ∷ Key.equal ∷ Key.open_bracket ∷ Key.close_bracket ∷ Key.backslash ∷ Key.semicolon
    ∷ Key.quote ∷ Key.comma ∷ Key.period ∷ Key.slash ∷ Key.hash ∷ Key.plus ∷ Key.star
    ∷ Key.less_than ∷ Key.backspace ∷ Key.caps_lock ∷ Key.delete ∷ Key.end ∷ Key.enter ∷ Key.escape
    ∷ Key.home ∷ Key.insert ∷ Key.page_down ∷ Key.page_up ∷ Key.tab ∷ Key.arrow_down
    ∷ Key.arrow_left ∷ Key.arrow_right ∷ Key.arrow_up ∷ Key.alt ∷ Key.control ∷ Key.shift ∷ Key.meta
    ∷ Key.platform ∷ Key.f1 ∷ Key.f2 ∷ Key.f3 ∷ Key.f4 ∷ Key.f5 ∷ Key.f6 ∷ Key.f7 ∷ Key.f8 ∷ Key.f9
    ∷ Key.f10 ∷ Key.f11 ∷ Key.f12 ∷ Key.num_lock ∷ Key.custom_0 ∷ Key.custom_1 ∷ Key.custom_2
    ∷ Key.custom_3 ∷ Key.custom_4 ∷ []

-- `static_cast<Key>(n)`, where `n` is the value of a key.
abbrev pub cast : ℕ → Key
cast n = get_or all_keys n Key.none

pub cast-code : (k : Key) → cast (code k) ≡ k
cast-code Key.none = refl
cast-code Key.a = refl
cast-code Key.b = refl
cast-code Key.c = refl
cast-code Key.d = refl
cast-code Key.e = refl
cast-code Key.f = refl
cast-code Key.g = refl
cast-code Key.h = refl
cast-code Key.i = refl
cast-code Key.j = refl
cast-code Key.k = refl
cast-code Key.l = refl
cast-code Key.m = refl
cast-code Key.n = refl
cast-code Key.o = refl
cast-code Key.p = refl
cast-code Key.q = refl
cast-code Key.r = refl
cast-code Key.s = refl
cast-code Key.t = refl
cast-code Key.u = refl
cast-code Key.v = refl
cast-code Key.w = refl
cast-code Key.x = refl
cast-code Key.y = refl
cast-code Key.z = refl
cast-code Key.digit_0 = refl
cast-code Key.digit_1 = refl
cast-code Key.digit_2 = refl
cast-code Key.digit_3 = refl
cast-code Key.digit_4 = refl
cast-code Key.digit_5 = refl
cast-code Key.digit_6 = refl
cast-code Key.digit_7 = refl
cast-code Key.digit_8 = refl
cast-code Key.digit_9 = refl
cast-code Key.space = refl
cast-code Key.backtick = refl
cast-code Key.minus = refl
cast-code Key.equal = refl
cast-code Key.open_bracket = refl
cast-code Key.close_bracket = refl
cast-code Key.backslash = refl
cast-code Key.semicolon = refl
cast-code Key.quote = refl
cast-code Key.comma = refl
cast-code Key.period = refl
cast-code Key.slash = refl
cast-code Key.hash = refl
cast-code Key.plus = refl
cast-code Key.star = refl
cast-code Key.less_than = refl
cast-code Key.backspace = refl
cast-code Key.caps_lock = refl
cast-code Key.delete = refl
cast-code Key.end = refl
cast-code Key.enter = refl
cast-code Key.escape = refl
cast-code Key.home = refl
cast-code Key.insert = refl
cast-code Key.page_down = refl
cast-code Key.page_up = refl
cast-code Key.tab = refl
cast-code Key.arrow_down = refl
cast-code Key.arrow_left = refl
cast-code Key.arrow_right = refl
cast-code Key.arrow_up = refl
cast-code Key.alt = refl
cast-code Key.control = refl
cast-code Key.shift = refl
cast-code Key.meta = refl
cast-code Key.platform = refl
cast-code Key.f1 = refl
cast-code Key.f2 = refl
cast-code Key.f3 = refl
cast-code Key.f4 = refl
cast-code Key.f5 = refl
cast-code Key.f6 = refl
cast-code Key.f7 = refl
cast-code Key.f8 = refl
cast-code Key.f9 = refl
cast-code Key.f10 = refl
cast-code Key.f11 = refl
cast-code Key.f12 = refl
cast-code Key.num_lock = refl
cast-code Key.custom_0 = refl
cast-code Key.custom_1 = refl
cast-code Key.custom_2 = refl
cast-code Key.custom_3 = refl
cast-code Key.custom_4 = refl

pub code_injective : (lhs rhs : Key) → code lhs ≡ code rhs → lhs ≡ rhs
code_injective lhs rhs same = sym (cast-code lhs) ∙ ap cast same ∙ cast-code rhs

&&_true : (lhs rhs : Bool) → (lhs && rhs) ≡ true → (lhs ≡ true) × (rhs ≡ true)
&&_true lhs rhs both = ground arith

abbrev pub all_of : (Key → Bool) → List Key → Bool
all_of test [] = true
all_of test (first ∷ others) = test first && all_of test others

listed :
    (test : Key → Bool) (keys : List Key) (at : ℕ)
    → at < length keys
    → all_of test keys ≡ true
    → test (get_or keys at Key.none) ≡ true
listed test [] at bound every = absurd (omega arith)
listed test (first ∷ others) zero bound every = (&&_true (test first) (all_of test others) every).0
listed test (first ∷ others) (suc at) bound every =
    listed test others at (omega arith) (&&_true (test first) (all_of test others) every).1

code-lt : (key : Key) → code key < keys_size
code-lt Key.none = omega arith
code-lt Key.a = omega arith
code-lt Key.b = omega arith
code-lt Key.c = omega arith
code-lt Key.d = omega arith
code-lt Key.e = omega arith
code-lt Key.f = omega arith
code-lt Key.g = omega arith
code-lt Key.h = omega arith
code-lt Key.i = omega arith
code-lt Key.j = omega arith
code-lt Key.k = omega arith
code-lt Key.l = omega arith
code-lt Key.m = omega arith
code-lt Key.n = omega arith
code-lt Key.o = omega arith
code-lt Key.p = omega arith
code-lt Key.q = omega arith
code-lt Key.r = omega arith
code-lt Key.s = omega arith
code-lt Key.t = omega arith
code-lt Key.u = omega arith
code-lt Key.v = omega arith
code-lt Key.w = omega arith
code-lt Key.x = omega arith
code-lt Key.y = omega arith
code-lt Key.z = omega arith
code-lt Key.digit_0 = omega arith
code-lt Key.digit_1 = omega arith
code-lt Key.digit_2 = omega arith
code-lt Key.digit_3 = omega arith
code-lt Key.digit_4 = omega arith
code-lt Key.digit_5 = omega arith
code-lt Key.digit_6 = omega arith
code-lt Key.digit_7 = omega arith
code-lt Key.digit_8 = omega arith
code-lt Key.digit_9 = omega arith
code-lt Key.space = omega arith
code-lt Key.backtick = omega arith
code-lt Key.minus = omega arith
code-lt Key.equal = omega arith
code-lt Key.open_bracket = omega arith
code-lt Key.close_bracket = omega arith
code-lt Key.backslash = omega arith
code-lt Key.semicolon = omega arith
code-lt Key.quote = omega arith
code-lt Key.comma = omega arith
code-lt Key.period = omega arith
code-lt Key.slash = omega arith
code-lt Key.hash = omega arith
code-lt Key.plus = omega arith
code-lt Key.star = omega arith
code-lt Key.less_than = omega arith
code-lt Key.backspace = omega arith
code-lt Key.caps_lock = omega arith
code-lt Key.delete = omega arith
code-lt Key.end = omega arith
code-lt Key.enter = omega arith
code-lt Key.escape = omega arith
code-lt Key.home = omega arith
code-lt Key.insert = omega arith
code-lt Key.page_down = omega arith
code-lt Key.page_up = omega arith
code-lt Key.tab = omega arith
code-lt Key.arrow_down = omega arith
code-lt Key.arrow_left = omega arith
code-lt Key.arrow_right = omega arith
code-lt Key.arrow_up = omega arith
code-lt Key.alt = omega arith
code-lt Key.control = omega arith
code-lt Key.shift = omega arith
code-lt Key.meta = omega arith
code-lt Key.platform = omega arith
code-lt Key.f1 = omega arith
code-lt Key.f2 = omega arith
code-lt Key.f3 = omega arith
code-lt Key.f4 = omega arith
code-lt Key.f5 = omega arith
code-lt Key.f6 = omega arith
code-lt Key.f7 = omega arith
code-lt Key.f8 = omega arith
code-lt Key.f9 = omega arith
code-lt Key.f10 = omega arith
code-lt Key.f11 = omega arith
code-lt Key.f12 = omega arith
code-lt Key.num_lock = omega arith
code-lt Key.custom_0 = omega arith
code-lt Key.custom_1 = omega arith
code-lt Key.custom_2 = omega arith
code-lt Key.custom_3 = omega arith
code-lt Key.custom_4 = omega arith

-- What a test finds true of each key of the list holds of every key.
pub for_all_keys : (test : Key → Bool) → all_of test all_keys ≡ true → (key : Key) → test key ≡ true
for_all_keys test every key =
    subst (λ which. test which ≡ true) (cast-code key)
      (listed test all_keys (code key) (code-lt key) every)
