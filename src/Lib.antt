-- ===== src/Lib.antt =====
-- karta.cards.vera, modelled and verified: a card vault that releases card data only against
-- single-use retrieval tokens, a payment service that takes a transaction from its creation to a
-- charge, and the packages they share.
--
-- Parts and files:
--   Common           lists, texts, maps and numbers that the rest uses
--   Core             packages/core: Error (error.ts, with the Express error middleware), Encryption
--                    (encryption.ts, key-provider.ts), Exec and Hoare (async handlers as functions
--                    of the state that may throw, and what holds at their ends), Json (the text
--                    that the vault encrypts), Cmac (cmac.ts), Http (what the HTTP clients share),
--                    Zod (JSON values and the schema checks on them, validate.ts)
--   Programs         packages/programs: TierRules (tier-rules.ts), Currency (currency.ts), Resolve
--                    (program.ts)
--   Vault            services/vault/src/vault: Luhn (fingerprint.ts, and the front ends' luhn.ts),
--                    Audit (events.ts, audit.service.ts), Db (the tables), Store
--                    (store.service.ts), Retrieval (retrieval.service.ts), Template (template.ts),
--                    Proxy (proxy.service.ts), Schemas and Routes (services/vault/src/routes and
--                    the router of index.ts), Attribution (who the audit rows name)
--   VaultClient      packages/vault-client, and what the vault's router makes of its requests
--   Pay              services/pay/src: StateMachine (transactions/state-machine.ts), Tier
--                    (transactions/tier.ts), Realtime (realtime/sse.service.ts), Db (the
--                    Transaction table), Transactions (transactions/transaction.service.ts, and the
--                    sweep of packages/retention/src/purge.ts), Serialize
--                    (transactions/serialize.ts), Arqc (arqc/arqc.service.ts), Orchestration
--                    (orchestration/post-auth.ts), Authentication (routes/auth.routes.ts,
--                    webauthn/webauthn.service.ts), Registration (webauthn/webauthn.service.ts and
--                    packages/webauthn/src/config.ts), Palisade (cards/palisade-client.ts),
--                    AdminKey (middleware/require-admin-key.ts), Schemas and Routes
--                    (routes/transactions.routes.ts, auth.routes.ts, payment.routes.ts),
--                    MockProvider (providers/mock.provider.ts)
--   ServiceAuth      packages/service-auth: the signed requests between the services
--   Handoff          packages/handoff: the signed token that one service hands to the next
--   CognitoAuth      packages/cognito-auth: the middleware of the admin service
--   Admin            services/admin/src/routes: tokenisation-programs.routes.ts (Programs) and
--                    vault-proxy.routes.ts (VaultProxy); packages/admin-config (Emails)
--   Retention        packages/retention: the purges of expired rows and the sweeper's timer
--
-- The payment service looks a card up, stores a transaction under the rules of its program, and
-- after the card holder's authentication asks the vault for a token, hands the token to the payment
-- provider, which redeems it at the vault, and charges. Every status goes through the state machine
-- and is published on the event bus. Services call each other with signed requests: the vault's
-- client signs, the vault's router verifies and acts in the name of the key. Administrators set the
-- rules of the programs, and sweepers delete what has expired.
--
-- State and errors. A handler is a function from a state to an outcome and a state (Core.Exec):
-- what was written before a throw stays written. The vault's state is its two tables and its audit
-- log, and its proxy carries the requests that it sent beside them; the payment service's is its
-- table, its bus and the list of the calls it made to services outside. The keys of the signature
-- check are a plain object, which is read through its prototype too. A Prisma query is one step on
-- a table; a unique column that clashes is refused. The atomic updateMany of the claim is one step,
-- and so is the read and write of updateStatus, so that two requests which interleave inside
-- updateStatus are not covered. Times are milliseconds, and a request reads the clock once. Random
-- identifiers, tokens and IVs are arguments.
--
-- Parameters. AES and AES-GCM, HMAC, SHA-256, HKDF, base64url, JSON.parse and JSON.stringify of
-- bodies, the WebAuthn library, the decoding of its client data, the verification of a Cognito token
-- by jose, URL parsing, the HTTP client, the card service and, seen from the payment's pipeline, the
-- payment provider and the vault are arguments of the definitions that use them; the services'
-- answers to a payment may depend on every call made before. What is assumed of them is a record of
-- laws beside the theorems that use it. A request body is a JSON value (Core.Zod), and a zod schema
-- is the checks that it makes, in their order. Text that the code walks is a list of character codes,
-- other text is compared only.
--
-- Loops are structural recursion, but for the decimal digits of a timestamp and the standard's CMAC
-- that the code's is compared with, whose fuel is one more than the number and the length and is
-- shown to be enough. The human-readable messages of errors, logging, the SSE heartbeat, response
-- headers, HEAD requests, rate limits and the user interface are not modelled. Neither are the
-- Stripe provider and its webhook, which call an SDK, the admin service's proxy of the payment
-- service, the options of an authentication and the verification of responses, which the WebAuthn
-- library does, and the environment schemas, which are read once at the start.
pub mod Common
pub mod Core
pub mod Programs
pub mod Pay
pub mod Vault
pub mod Admin
pub mod CognitoAuth
pub mod Handoff
pub mod Retention
pub mod ServiceAuth
pub mod VaultClient
