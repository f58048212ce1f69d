-- ===== src/Pay.antt =====
-- services/pay: transactions, their state machine, the event bus and the payment orchestration.
pub mod StateMachine
pub mod Tier
pub mod Realtime
pub mod Db
pub mod Transactions
pub mod Serialize
pub mod AdminKey
pub mod Arqc
pub mod Orchestration
pub mod Authentication
pub mod Tests
pub mod PaymentTests
pub mod AuthenticationTests
pub mod Palisade
pub mod PalisadeTests
pub mod RouteTests
pub mod ProviderTests
pub mod Registration
pub mod MockProvider
pub mod Schemas
pub mod Routes
pub mod RegistrationTests
