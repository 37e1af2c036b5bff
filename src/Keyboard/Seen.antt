-- ===== src/Keyboard/Seen.antt =====
-- What becomes of a key that is sent to Windows and read back, as one reads it in the tables of
-- cth_win/src/cth/win/io/win_key_convert.hpp.
use cth.Base.{Bool, true, false, ◌&&◌, if◌then◌else◌}
use cth.Keys.{Key, ExKey}
use cth.Keyboard.Send.{between}

-- A key as it is reported when it was sent: two keys share the virtual key of another one, and the
-- keys F1 to F12 are not known.
abbrev pub seen_key : Key → Key
seen_key Key.hash = Key.backtick
seen_key Key.less_than = Key.comma
seen_key key = if between Key.f1 Key.f12 key then Key.none else key

-- The keys that a keyboard has on both sides.
abbrev pub is_sided : Key → Bool
is_sided Key.alt = true
is_sided Key.control = true
is_sided Key.shift = true
is_sided Key.platform = true
is_sided _ = false

abbrev pub seen : Key → Bool → ExKey
seen key right = record { key = seen_key key; right = is_sided key && right }

-- The keys that Windows has a virtual key for.
abbrev pub has_virtual_key : Key → Bool
has_virtual_key Key.none = false
has_virtual_key key = if between Key.custom_0 Key.custom_4 key then false else true
