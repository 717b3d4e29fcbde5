-- ===== src/Tests.antt =====
-- The theorems at concrete inputs.
mod Strings
mod Parser
mod Answers
mod Server
mod Clients
mod Messages
mod Resources
