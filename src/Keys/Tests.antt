-- ===== src/Keys/Tests.antt =====
-- Tests of the keys.
use cth.Base.{◌+◌, ◌≡◌, refl}
use cth.Keys.{Key, code}
use cth.Keys.Codes.{cast}
use cth.Keys.Symbols.{to_utf8_string}

cast_f5 : cast (code Key.f1 + 4) ≡ Key.f5
cast_f5 = refl

enter_symbol : to_utf8_string Key.enter ≡ "↵"
unfolding to_utf8_string
enter_symbol = refl
