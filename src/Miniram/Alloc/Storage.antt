-- ===== src/Miniram/Alloc/Storage.antt =====
-- `remaining()` after `allocate` (cth/incl/cth/data/inl/miniram.inl).
use cth.Miniram.Ram.{Ram}
use cth.Miniram.Alloc.Takes.{Takes}
