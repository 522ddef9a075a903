-- ===== src/Senders.antt =====
-- internal/adapter/sender: which identity a message goes out as, and what the answer of a provider
-- means.
pub mod Answers
pub mod Judged
pub mod Mail
pub mod Configs
pub mod Registry
pub mod Lookup
pub mod Chosen
