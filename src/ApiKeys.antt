-- ===== src/ApiKeys.antt =====
-- maas-api/internal/api_keys: the API keys of the service.
pub mod Base62
pub mod Keygen
pub mod Types
pub mod Store
pub mod MockStore
pub mod Search
pub mod InMemory
pub mod Service
pub mod Handler
mod Tests
