-- ===== src/Input.antt =====
-- Input: the keys that are held and the ring of keycodes (Keyboard), and the decoder of the scancodes
-- of an AT keyboard (AtKeyboard).
pub mod Keyboard
pub mod AtKeyboard
pub mod Tests
