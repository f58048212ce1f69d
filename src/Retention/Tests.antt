-- ===== src/Retention/Tests.antt =====
-- Witnesses for the theorems about packages/retention.
use karta_cards_vera.Common.{◌≡◌, ◌⊎◌, refl, String, true, false, if◌then◌else◌, arith}
use karta_cards_vera.Core.Error.{api, not_found, gone}
use karta_cards_vera.Core.Exec.{ok, throw}
use karta_cards_vera.Vault.Retrieval.{consume_retrieval_token}
use karta_cards_vera.Vault.Tests.{toy, sale, with_token, one_token-IsUnique}
use karta_cards_vera.Retention.{
  purge_expired_retrieval_tokens, Sweeper, start_sweeper, tick, finish_sweep, stop, Reaches, here,
  next, fires, ends, stops,
}
use karta_cards_vera.Retention.Tokens.{purge-consume}
use karta_cards_vera.Retention.Sweeps.{Reaches-sweeper}

purge-consume_example :
    ((consume_retrieval_token toy 90_000 "vrt_1" sale
        (purge_expired_retrieval_tokens 70_000 with_token).1).0
      ≡ (consume_retrieval_token toy 90_000 "vrt_1" sale with_token).0)
    ⊎ (((consume_retrieval_token toy 90_000 "vrt_1" sale
            (purge_expired_retrieval_tokens 70_000 with_token).1).0
          ≡ throw (api (not_found "token_not_found")))
        × (reason : String) × ((consume_retrieval_token toy 90_000 "vrt_1" sale with_token).0
            ≡ throw (api (gone reason))))
purge-consume_example =
    purge-consume toy 70_000 90_000 "vrt_1" sale with_token (omega arith) one_token-IsUnique

abbrev stopped_busy : Sweeper
stopped_busy = stop (tick start_sweeper)

abbrev ended : Sweeper
ended = finish_sweep 0 (ok 3) stopped_busy

gets_stopped : Reaches start_sweeper stopped_busy
gets_stopped = next (next here (fires refl)) stops

gets_ended : Reaches stopped_busy ended
unfolding stop tick
gets_ended = next here (ends 0 (ok 3) refl)

Reaches-sweeper_example :
    (stopped_busy.running ≡ (if stopped_busy.busy then 1 else 0))
    × (stopped_busy.timer ≡ (if stopped_busy.stopped then false else true))
    × ((stopped_busy.stopped ≡ false) ⊎ (ended.started ≡ stopped_busy.started))
Reaches-sweeper_example = Reaches-sweeper stopped_busy ended gets_stopped gets_ended
