-- ===== src/Mobile.antt =====
-- The mobile application's client of the payments API.
pub mod Stream
pub mod Frames
pub mod Delivery
pub mod Printed
pub mod Requests
