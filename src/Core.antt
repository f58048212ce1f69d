-- ===== src/Core.antt =====
-- packages/core: errors, the exception-and-state monad that the services run in, encryption, and
-- the JSON text of an encrypted card.
pub mod Error
pub mod Exec
pub mod Hoare
pub mod Encryption
pub mod Cmac
pub mod Http
pub mod Json
pub mod Zod
pub mod Tests
