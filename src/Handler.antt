-- ===== src/Handler.antt =====
-- The event handlers of domain/handler.rs.
pub mod Common
pub mod Reservation
pub mod Shipping
pub mod Delivery
pub mod Notification
pub mod Compensation
pub mod Verifier
pub mod Idempotence
