-- ===== src/ApiKeys/Tests.antt =====
-- The theorems on API keys at concrete inputs.
mod Samples
mod Keys
mod Stores
mod Services
mod Requests
