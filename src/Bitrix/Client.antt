-- ===== src/Bitrix/Client.antt =====
-- app/bitrix/client.py: one POST request and the classification of its answer. Logging is left out.
pub mod Classify
pub mod Call
pub mod Answers
