-- ===== src/Outbox/Tests.antt =====
-- The outbox (backend/moyuan_web/v1/outbox.py) on small inputs.
use route_pilot.Common.{
  ℕ, String, Bool, false, none, some, List, [], ◌∷◌, ◌+◌, ◌*◌, ◌≡◌, inl, inr, refl, arith, All,
}
use route_pilot.Common.{each, keep}
use route_pilot.Common.Dict.{insert}
use route_pilot.Common.Json.{Json, Fields}
use route_pilot.Common.Sets.{In, member, Distinct, distinct, distinct_iff}
use route_pilot.Common.Eq.{text_equality, ==_iff}
use route_pilot.Outbox.Repository.{
  Row, OutboxRecord, Worker, lock, claim_batch, row_ids, is_due, safe_code, second, lease_of,
  batch_size,
}
use route_pilot.Outbox.Dispatch.{published, World, dispatch_once}
use route_pilot.Outbox.Calls.{System, Call, enqueue, claim, attempt, finish, stop, run, empty}
use route_pilot.Outbox.Changes.{published_final}
use route_pilot.Outbox.Delivery.{published_delivered, IsSent}
use route_pilot.Outbox.Drain.{dispatch_once_drains, IsOut, all_arrive, record_ids}
use route_pilot.Outbox.Exclusive.{claim_exclusive}

abbrev row : String → ℕ → Row
row id at = record {
  outbox_id = id;
  tenant_id = "t";
  aggregate_type = "run";
  aggregate_id = "r";
  event_type = "run.created";
  payload = Json.obj Fields.end;
  publish_attempts = 0;
  available_at = at;
  created_at = at;
  locked_at = none;
  locked_by = none;
  published_at = none;
  last_error = none;
}

abbrev ana : Worker
ana = record { worker_id = "ana"; lease_seconds = 60 }

abbrev ben : Worker
ben = record { worker_id = "ben"; lease_seconds = 60 }

abbrev nothing_locked : String → Bool
nothing_locked id = false

abbrev same_text : String → String
same_text t = t

-- Ana publishes the row and stops before the mark; Ben takes it over when her lease has run out.
abbrev handover : List Call
handover =
    enqueue (row "a" 5)
    ∷ claim ana 10 nothing_locked 100
    ∷ attempt ana published
    ∷ stop ana
    ∷ claim ben (11 + 60 * second) nothing_locked 100
    ∷ attempt ben published
    ∷ finish ben (12 + 60 * second)
    ∷ []

twice_delivered : (run same_text handover empty).world.stream ≡ "a" ∷ "a" ∷ []
unfolding run insert
twice_delivered = refl

code_is_safe : safe_code same_text "TIMEOUT: 3" ≡ "TIMEOUT__3"
unfolding safe_code
code_is_safe = refl

published_delivered_example :
    All
      (IsSent (run same_text handover empty).world.stream)
      (run same_text handover empty).world.table
published_delivered_example = published_delivered same_text handover

abbrev two_rows : World
two_rows = record { table = row "a" 5 ∷ row "b" 6 ∷ []; stream = [] }

abbrev time : OutboxRecord → ℕ
time r = 20

dispatch_once_drains_example :
    IsOut "b"
      (dispatch_once same_text ana 10 nothing_locked 0 all_arrive time
        (record { table = row "b" 6 ∷ []; stream = [] })).1
unfolding is_due batch_size keep
dispatch_once_drains_example =
    dispatch_once_drains same_text ana 10 nothing_locked 0 time
      (record { table = row "b" 6 ∷ []; stream = [] }) (row "b" 6) (ground arith) (inl refl) refl
      refl

abbrev done : Row
done = record (row "a" 5) { published_at = some 9; publish_attempts = 1 }

abbrev one_done : System
one_done = record {
  world = record { table = done ∷ row "b" 6 ∷ []; stream = "a" ∷ [] };
  workers = [];
}

Distinct-ids : Distinct (row_ids one_done.world.table)
unfolding each distinct
Distinct-ids = (distinct_iff (row_ids one_done.world.table)).0 refl

published_final_example :
    In done
      (run same_text
        (claim ana 10 nothing_locked 9 ∷ attempt ana published ∷ finish ana 11 ∷ [])
        one_done).world.table
published_final_example =
    published_final same_text
      (claim ana 10 nothing_locked 9 ∷ attempt ana published ∷ finish ana 11 ∷ []) one_done done
      Distinct-ids (inl refl) refl

abbrev held_row : Row
held_row = lock ana 10 (row "b" 6)

abbrev held : System
held = record { world = record { table = done ∷ held_row ∷ []; stream = [] }; workers = [] }

held_ids : Distinct (row_ids held.world.table)
unfolding each distinct
held_ids = (distinct_iff (row_ids held.world.table)).0 refl

claim_exclusive_example :
    let table =
      (run same_text
        (claim ben 20 nothing_locked 9 ∷ attempt ben published ∷ finish ben 21 ∷ [])
        held).world.table in
    In held_row table
    × (member "b" (record_ids (claim_batch ben (10 + 60 * second) nothing_locked 9 table).0)
        ≡ false)
unfolding lease_of
claim_exclusive_example =
    claim_exclusive ana 10 same_text
      (claim ben 20 nothing_locked 9 ∷ attempt ben published ∷ finish ben 21 ∷ []) held held_row ben
      (10 + 60 * second) nothing_locked 9 held_ids (inr (inl refl))
      (record { time = refl; owner = refl; open_row = refl })
      (
        ground arith,
        (tt, (inl (λ e. absurd (ground (arith, (==_iff {A = String} "ben" "ana").1 e))), tt)),
      )
      (ground arith)
