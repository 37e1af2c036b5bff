-- ===== src/Keyboard.antt =====
-- cth_win/src/cth/win/io: the keys as Windows knows them (win_key_convert.hpp).
pub mod Windows
pub mod Send
pub mod Receive
pub mod Seen
pub mod Switched
pub mod Choices
pub mod Virtual
pub mod Rows
pub mod RoundTrip
mod Numbers
pub mod Queue
pub mod Manager
pub mod Delivery
pub mod Subscribed
pub mod Delivered
pub mod Events
pub mod Hook
pub mod Stopping
pub mod Lost
mod Tests
