-- ===== src/Keys.antt =====
-- cth/incl/cth/io/keybd/keys.hpp: the keys, their states and their changes. `Symbols` has their
-- names.
pub mod Codes
pub mod Symbols
mod Tests
use cth.Base.{ℕ, Bool}

-- The enumeration, without `ENUM_LAST_VALUE`, which is another name of `CUSTOM_4`.
pub data Key : Type 0 where
  none a b c d e f g h i j k l m n o p q r s t u v w x y z digit_0 digit_1 digit_2 digit_3 digit_4
        digit_5 digit_6 digit_7 digit_8 digit_9 space backtick minus equal open_bracket
        close_bracket backslash semicolon quote comma period slash hash plus star less_than
        backspace caps_lock delete end enter escape home insert page_down page_up tab arrow_down
        arrow_left arrow_right arrow_up alt control shift meta platform f1 f2 f3 f4 f5 f6 f7 f8 f9
        f10 f11 f12 num_lock custom_0 custom_1 custom_2 custom_3 custom_4 :
      Key

-- `operator*`: the value of the underlying type.
abbrev pub code : Key → ℕ
code none = 0
code a = 1
code b = 2
code c = 3
code d = 4
code e = 5
code f = 6
code g = 7
code h = 8
code i = 9
code j = 10
code k = 11
code l = 12
code m = 13
code n = 14
code o = 15
code p = 16
code q = 17
code r = 18
code s = 19
code t = 20
code u = 21
code v = 22
code w = 23
code x = 24
code y = 25
code z = 26
code digit_0 = 27
code digit_1 = 28
code digit_2 = 29
code digit_3 = 30
code digit_4 = 31
code digit_5 = 32
code digit_6 = 33
code digit_7 = 34
code digit_8 = 35
code digit_9 = 36
code space = 37
code backtick = 38
code minus = 39
code equal = 40
code open_bracket = 41
code close_bracket = 42
code backslash = 43
code semicolon = 44
code quote = 45
code comma = 46
code period = 47
code slash = 48
code hash = 49
code plus = 50
code star = 51
code less_than = 52
code backspace = 53
code caps_lock = 54
code delete = 55
code end = 56
code enter = 57
code escape = 58
code home = 59
code insert = 60
code page_down = 61
code page_up = 62
code tab = 63
code arrow_down = 64
code arrow_left = 65
code arrow_right = 66
code arrow_up = 67
code alt = 68
code control = 69
code shift = 70
code meta = 71
code platform = 72
code f1 = 73
code f2 = 74
code f3 = 75
code f4 = 76
code f5 = 77
code f6 = 78
code f7 = 79
code f8 = 80
code f9 = 81
code f10 = 82
code f11 = 83
code f12 = 84
code num_lock = 85
code custom_0 = 86
code custom_1 = 87
code custom_2 = 88
code custom_3 = 89
code custom_4 = 90

abbrev pub keys_size : ℕ
keys_size = 91

pub record ExKey : Type 0 where
  pub key : Key
  pub right : Bool

pub record KeyState : Type 0 where
  pub ex_key : ExKey
  pub down : Bool

-- The time is a number of ticks of the clock.
pub record KeyUpdate : Type 0 where
  pub data_ : KeyState
  pub time : ℕ
