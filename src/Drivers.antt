-- ===== src/Drivers.antt =====
-- drivers/: the terminal.
pub mod Tty
