-- ===== src/Examples.antt =====
-- Runs of the model on concrete values, for the reader and against a statement without a case.
pub mod Entities
pub mod Workers
pub mod Requests
pub mod Broker
pub mod Callback
pub mod Console
pub mod Vault
pub mod Sealing
pub mod Senders
pub mod Retention
