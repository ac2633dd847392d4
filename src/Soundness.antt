-- ===== src/Soundness.antt =====
-- Which properties of the world the program keeps.
pub mod Interface
pub mod Events
pub mod Handlers
pub mod Followers
pub mod Wrapped
pub mod Delivery
pub mod Requests
pub mod Consistency
