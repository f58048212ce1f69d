-- ===== src/Pay/Realtime.antt =====
-- services/pay/src/realtime/sse.service.ts: the event bus, keyed by RLID. A `Response` is a number;
-- `sets` is the store of subscriber sets, which the map and the closures of `subscribe` share by
-- address. A write to a response is an entry of `written`. The heartbeat is not modelled.
pub mod History
use karta_cards_vera.Common.{
  ℕ, ◌+◌, ℤ, String, Text, none, some, not, List, [], ◌∷◌, ◌++◌, zero, suc, ltb, eqb, length, any,
  keep, map, lookup, insert, remove, if◌then◌else◌, or_else,
}
use karta_cards_vera.Programs.TierRules.{CredentialKind}
use karta_cards_vera.Pay.Tier.{Tier}

pub data SseEventType : Type 0 where
  transaction_created authn_started authn_complete arqc_valid vault_retrieved : SseEventType
  provider_tokenised charged completed failed expired : SseEventType

-- The `data` of an event: the objects that the code publishes.
pub data SseData : Type 0 where
  no_data : SseData
  created_data : ℤ → Text → Tier → List CredentialKind → String → ℕ → SseData
  atc_data : ℕ → SseData
  tokenised_data : String → Text → SseData
  charged_data : String → SseData
  completed_data : String → String → Text → SseData
  failed_data : String → SseData

pub record SseEvent : Type 0 where
  pub kind : SseEventType
  pub rlid : String
  pub at : ℕ
  pub payload : SseData

-- What is written to a response: the greeting of a new stream, or an event.
pub data Frame : Type 0 where
  connected : Frame
  event : SseEvent → Frame

pub record SseBus : Type 0 where
  pub subscribers : List (String × ℕ)
  pub sets : List (List ℕ)
  pub last_by_rlid : List (String × List SseEvent)
  pub written : List (ℕ × Frame)

-- The set at an address; the addresses in use are those of sets.
abbrev pub set_at : ℕ → List (List ℕ) → List ℕ
set_at i [] = []
set_at zero (set ∷ rest) = set
set_at (suc i) (set ∷ rest) = set_at i rest

abbrev pub set_put : ℕ → List ℕ → List (List ℕ) → List (List ℕ)
set_put i set [] = []
set_put zero set (_ ∷ rest) = set ∷ rest
set_put (suc i) set (other ∷ rest) = other ∷ set_put i set rest

-- `set.add(res)`, in the order of insertion.
abbrev pub set_add : ℕ → List ℕ → List ℕ
set_add res set = if any (eqb res) set then set else set ++ res ∷ []

-- `set.delete(res)`
abbrev pub set_delete : ℕ → List ℕ → List ℕ
set_delete res = keep (λ x. not (eqb x res))

-- `while (history.length > 20) history.shift()`
unfoldable pub shift_history : List SseEvent → List SseEvent
shift_history [] = []
shift_history (e ∷ es) =
    let rest = shift_history es in if ltb 20 (length (e ∷ es)) then rest else e ∷ es

-- The history of an RLID, empty where there is none.
abbrev pub history : String → SseBus → List SseEvent
history rlid b = or_else (lookup rlid b.last_by_rlid) []

-- The responses that an event of an RLID goes to.
abbrev pub audience : String → SseBus → List ℕ
audience rlid b = elim (lookup rlid b.subscribers) [ none ↦ [] | some i ↦ set_at i b.sets ]

unfoldable pub publish : SseEvent → SseBus → SseBus
publish e b = record b {
  last_by_rlid = insert e.rlid (shift_history (history e.rlid b ++ e ∷ [])) b.last_by_rlid;
  written = b.written ++ map (λ res. (res, event e)) (audience e.rlid b);
}

-- What the closure `unsub` remembers.
pub record Subscription : Type 0 where
  pub rlid : String
  pub res : ℕ
  pub set : ℕ

-- `subs.add(res)` on the set of the RLID, made first where there is none.
unfoldable pub join : String → ℕ → SseBus → Subscription × SseBus
join rlid res b = elim (lookup rlid b.subscribers) [
  | some i ↦ (
    record { rlid = rlid; res = res; set = i },
    record b { sets = set_put i (set_add res (set_at i b.sets)) b.sets },
  )
  | none ↦ (
    record { rlid = rlid; res = res; set = length b.sets },
    record b {
      subscribers = insert rlid (length b.sets) b.subscribers;
      sets = b.sets ++ (res ∷ []) ∷ [];
    },
  )
]

unfoldable pub subscribe : String → ℕ → SseBus → Subscription × SseBus
subscribe rlid res b = join rlid res (record b {
  written = b.written ++ (res, connected) ∷ map (λ e. (res, event e)) (history rlid b);
})

unfoldable pub unsubscribe : Subscription → SseBus → SseBus
unsubscribe sub b =
    let left = set_delete sub.res (set_at sub.set b.sets) in
    record b {
      sets = set_put sub.set left b.sets;
      subscribers = if eqb (length left) 0 then remove sub.rlid b.subscribers else b.subscribers;
    }

unfoldable pub forget : String → SseBus → SseBus
forget rlid b = record b { last_by_rlid = remove rlid b.last_by_rlid }
