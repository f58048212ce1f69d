-- ===== src/Vault/Audit.antt =====
-- services/vault/src/vault/events.ts and audit.service.ts: the events that the vault emits and the
-- audit row that the subscriber writes for each.
use karta_cards_vera.Common.{String, Option, none, some, Bool, true, false}

-- Who acts, why, and from where: fields that every event has.
pub record Actor : Type 0 where
  pub actor : String
  pub purpose : String
  pub ip : Option String
  pub ua : Option String

-- `VaultEvent`. An entry or token id is followed by the optional transaction, provider or
-- destination; `success` and `errorMessage` come last.
pub data VaultEvent : Type 0 where
  create : String → Actor → VaultEvent
  duplicate_rejected : String → Actor → VaultEvent
  token_minted : String → String → Option String → Actor → VaultEvent
  token_consumed : String → String → Option String → Actor → Bool → Option String → VaultEvent
  proxy_forwarded : String → String → String → Actor → Bool → Option String → VaultEvent
  provider_tokenised :
      String → String → String → Option String → String → String → Bool → Option String → VaultEvent

pub data EventType : Type 0 where
  create duplicate_rejected token_minted token_consumed proxy_forwarded : EventType
  provider_tokenised : EventType

pub data EventResult : Type 0 where
  success failure : EventResult

-- A row of `VaultAccessLog`, its id and creation time left out.
pub record AccessLog : Type 0 where
  pub event_type : EventType
  pub result : EventResult
  pub vault_entry_id : Option String
  pub retrieval_token_id : Option String
  pub transaction_id : Option String
  pub actor : String
  pub purpose : String
  pub ip_address : Option String
  pub user_agent : Option String
  pub error_message : Option String

abbrev pub result_of : Bool → EventResult
result_of true = success
result_of false = failure

-- `normaliseEvent`, and the row that `startAuditSubscriber` makes of its result.
unfoldable pub normalise_event : VaultEvent → AccessLog
normalise_event (VaultEvent.create entry by) = record {
  event_type = EventType.create;
  result = success;
  vault_entry_id = some entry;
  retrieval_token_id = none;
  transaction_id = none;
  actor = by.actor;
  purpose = by.purpose;
  ip_address = by.ip;
  user_agent = by.ua;
  error_message = none;
}
normalise_event (VaultEvent.duplicate_rejected entry by) = record {
  event_type = EventType.duplicate_rejected;
  result = failure;
  vault_entry_id = some entry;
  retrieval_token_id = none;
  transaction_id = none;
  actor = by.actor;
  purpose = by.purpose;
  ip_address = by.ip;
  user_agent = by.ua;
  error_message = none;
}
normalise_event (VaultEvent.token_minted entry token txn by) = record {
  event_type = EventType.token_minted;
  result = success;
  vault_entry_id = some entry;
  retrieval_token_id = some token;
  transaction_id = txn;
  actor = by.actor;
  purpose = by.purpose;
  ip_address = by.ip;
  user_agent = by.ua;
  error_message = none;
}
normalise_event (VaultEvent.token_consumed entry token txn by done msg) = record {
  event_type = EventType.token_consumed;
  result = result_of done;
  vault_entry_id = some entry;
  retrieval_token_id = some token;
  transaction_id = txn;
  actor = by.actor;
  purpose = by.purpose;
  ip_address = by.ip;
  user_agent = by.ua;
  error_message = msg;
}
normalise_event (VaultEvent.proxy_forwarded entry token destination by done msg) = record {
  event_type = EventType.proxy_forwarded;
  result = result_of done;
  vault_entry_id = some entry;
  retrieval_token_id = some token;
  transaction_id = none;
  actor = by.actor;
  purpose = by.purpose;
  ip_address = by.ip;
  user_agent = by.ua;
  error_message = msg;
}
normalise_event (VaultEvent.provider_tokenised entry token provider txn actor purpose done msg) =
    record {
      event_type = EventType.provider_tokenised;
      result = result_of done;
      vault_entry_id = some entry;
      retrieval_token_id = some token;
      transaction_id = txn;
      actor = actor;
      purpose = purpose;
      ip_address = none;
      user_agent = none;
      error_message = msg;
    }
