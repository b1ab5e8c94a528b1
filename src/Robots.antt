-- ===== src/Robots.antt =====
-- app/robots and app/api/robots.py: the callbacks of the robots.
pub mod Payload
pub mod Callbacks
pub mod Definitions
pub mod Registry
