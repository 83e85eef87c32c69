-- ===== src/Device.antt =====
-- device: the keyboard driver.
pub mod Keyboard
