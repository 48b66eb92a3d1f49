-- ===== src/Button.antt =====
-- The button: recognising gestures on sw0.
pub mod Gesture
