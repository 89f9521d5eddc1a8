-- ===== src/Outbox/Calls.antt =====
-- Histories of the outbox (backend/moyuan_web/v1/outbox.py): what transactions and workers do, one
-- after the other, in any order. A worker that stops leaves its records where they are.
use route_pilot.Common.{ℕ, String, Bool, Option, none, some, List, [], ◌∷◌, ◌++◌, if◌then◌else◌}
use route_pilot.Common.Eq.{text_equality}
use route_pilot.Common.Sets.{member}
use route_pilot.Common.Dict.{Dict, lookup, insert, remove}
use route_pilot.Outbox.Repository.{Row, OutboxRecord, Worker, row_ids, claim_batch}
use route_pilot.Outbox.Dispatch.{Attempt, World, publish, mark}

-- Where a worker is in `dispatch_once`: before the publication of the first of the records that are
-- left, or before the mark that follows it.
pub data Phase : Type 0 where
  before_publish : List OutboxRecord → Phase
  before_mark : OutboxRecord → Attempt → List OutboxRecord → Phase

pub record System : Type 0 where
  pub world : World
  pub workers : Dict String Phase

-- One for each thing that happens by itself. `enqueue` is the insertion by the product, which the
-- primary key refuses for an identifier that is there.
pub data Call : Type 0 where
  enqueue : Row → Call
  claim : Worker → ℕ → (String → Bool) → ℕ → Call
  attempt : Worker → Attempt → Call
  finish : Worker → ℕ → Call
  stop : Worker → Call

abbrev pub set_table : List Row → System → System
set_table table s = record s { world = record (s.world) { table = table } }

abbrev pub set_phase : Worker → Phase → System → System
set_phase w p s = record s { workers = insert w.worker_id p s.workers }

-- A new row is neither locked nor published.
abbrev pub fresh_row : Row → Row
fresh_row r = record r {
  publish_attempts = 0;
  locked_at = none;
  locked_by = none;
  published_at = none;
  last_error = none;
}

unfoldable pub publish_next : Worker → Attempt → Option Phase → System → System
unfolding publish
publish_next w a (some (before_publish (r ∷ rs))) s =
    set_phase w (before_mark r a rs)
      (record s { world = record (s.world) { stream = publish r a s.world.stream } })
publish_next w a _ s = s

module _ (upper : String → String) where
  unfoldable pub mark_next : Worker → ℕ → Option Phase → System → System
  unfolding mark
  mark_next w now (some (before_mark r a rs)) s =
      set_phase w (before_publish rs) (set_table (mark upper w now r a s.world.table) s)
  mark_next w now _ s = s

  unfoldable pub step : Call → System → System
  unfolding member claim_batch publish_next mark_next lookup remove
  step (enqueue r) s =
      if member r.outbox_id (row_ids s.world.table)
      then s
      else set_table (s.world.table ++ fresh_row r ∷ []) s
  step (claim w now skipped limit) s =
      let (records, table) = claim_batch w now skipped limit s.world.table in
      set_phase w (before_publish records) (set_table table s)
  step (attempt w a) s = publish_next w a (lookup w.worker_id s.workers) s
  step (finish w now) s = mark_next w now (lookup w.worker_id s.workers) s
  step (stop w) s = record s { workers = remove w.worker_id s.workers }

  unfoldable pub run : List Call → System → System
  unfolding step
  run [] s = s
  run (c ∷ cs) s = run cs (step c s)

abbrev pub empty : System
empty = record { world = record { table = []; stream = [] }; workers = [] }
