-- ===== src/Tests.antt =====
-- A small concrete platform, at which the results of the development are applied.
pub mod Toy
pub mod Data
pub mod Running
pub mod Reading
pub mod Adding
pub mod Arriving
pub mod Lives
pub mod Routes
pub mod Telling
pub mod Waiting
pub mod Following
pub mod Mocking
pub mod Commands
pub mod Notifying
pub mod Measuring
