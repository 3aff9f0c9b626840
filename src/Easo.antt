-- ===== src/Easo.antt =====
-- Package easo: plain frames (frame.go) and the encrypted channel (secure_easo.go).
pub mod Frame
pub mod Secure
