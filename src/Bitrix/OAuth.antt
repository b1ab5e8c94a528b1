-- ===== src/Bitrix/OAuth.antt =====
-- app/bitrix/oauth.py: the refresh transport and the portal-scoped token life cycle.
pub mod Numbers
pub mod Refresh
pub mod Portal
pub mod Traffic
pub mod Rejection
pub mod Marks
pub mod Stored
