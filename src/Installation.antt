-- ===== src/Installation.antt =====
-- app/bitrix/payload.py and app/api/installation.py: the life cycle of an installation.
pub mod Payload
pub mod Service
pub mod Steady
pub mod Rows
pub mod Lifecycle
pub mod Removal
pub mod Answers
pub mod Effects
pub mod Callbacks
mod Scenarios
