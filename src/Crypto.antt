-- ===== src/Crypto.antt =====
-- The modelled part of bitcoin/src/crypto/.
pub mod Sighash
