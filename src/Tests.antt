-- ===== src/Tests.antt =====
-- The theorems at concrete inputs.
mod Sample
mod Flows
mod Matching
mod Resolved
mod Saved
mod Sessions
mod Settings
mod Dns
mod Polling
mod Filters
mod Routes
mod Answers
