-- ===== src/Tests.antt =====
-- Concrete inputs on which the theorems are used.
mod Fixtures
mod Dispatching
mod Storage
mod Scanning
mod Streaming
mod Polling
mod Filling
mod Limits
mod Licensing
mod Keys
mod Onboarding
mod Sessions
mod Querying
