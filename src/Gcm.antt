-- ===== src/Gcm.antt =====
-- gcm/: messages for Firebase Cloud Messaging, and the client that sends them.
pub mod Message
pub mod Client
pub mod Laws
