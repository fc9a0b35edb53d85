-- ===== src/Crypt.antt =====
-- The directory crypt/.
pub mod Gcm
pub mod Cipher
pub mod Keys
