-- ===== src/Bitrix.antt =====
-- The Bitrix24 client and the OAuth services: app/bitrix.
pub mod Registration
pub mod Exceptions
pub mod Endpoint
pub mod Tokens
pub mod Client
pub mod OAuth
mod Scenarios
