-- ===== src/Subscription.antt =====
-- maas-api/internal/subscription: which MaaSSubscription a user's request or API key is bound to.
pub mod Types
pub mod Parse
pub mod Access
pub mod Health
pub mod Priority
pub mod Selector
pub mod Handler
pub mod Samples
mod Tests
