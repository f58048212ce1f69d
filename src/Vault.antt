-- ===== src/Vault.antt =====
-- services/vault: card storage, retrieval tokens, the outbound proxy and the audit log.
pub mod Luhn
pub mod Audit
pub mod Db
pub mod Store
pub mod Retrieval
pub mod Attribution
pub mod Template
pub mod Proxy
pub mod Schemas
pub mod Routes
pub mod Tests
pub mod ProxyTests
pub mod RouteTests
