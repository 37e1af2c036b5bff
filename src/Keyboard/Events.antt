-- ===== src/Keyboard/Events.antt =====
-- What holds of the event queues and of the hook through any actions
-- (cth_win/src/cth/win/io/keyboard.cpp).
