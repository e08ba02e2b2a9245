-- ===== src/Ski.antt =====
-- The secure key interface, package ski.
pub mod Key
pub mod Keyring
pub mod Tome
pub mod CryptoKit
pub mod Nacl
pub mod Ed25519
pub mod Kits
pub mod Payload
