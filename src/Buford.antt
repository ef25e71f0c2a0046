-- ===== src/Buford.antt =====
-- buford/: the client of Apple's push service.
pub mod Badge
pub mod Payload
pub mod Errors
pub mod Token
pub mod Push
