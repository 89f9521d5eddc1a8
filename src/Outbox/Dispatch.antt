-- ===== src/Outbox/Dispatch.antt =====
-- OutboxDispatcher of backend/moyuan_web/v1/outbox.py. The publisher is RedisStreamPublisher over a
-- Redis stream, which is not modelled: what comes of publishing a record is an argument.
use route_pilot.Common.{ℕ, String, Bool, List, [], ◌∷◌, length, if◌then◌else◌}
use route_pilot.Common.Eq.{text_equality}
use route_pilot.Outbox.Repository.{
  Row, OutboxRecord, Worker, claim_batch, mark_published, mark_failed,
}

-- `published` is a return from `publish`; an exception has a class name, and the record may be in
-- the stream all the same.
pub data Attempt : Type 0 where
  published : Attempt
  raised : String → Bool → Attempt

-- The table, and the identifiers of the records in the stream, the latest first.
pub record World : Type 0 where
  pub table : List Row
  pub stream : List String

unfoldable pub publish : OutboxRecord → Attempt → List String → List String
publish r published stream = r.outbox_id ∷ stream
publish r (raised code arrived) stream = if arrived then r.outbox_id ∷ stream else stream

module _ (upper : String → String) where
  unfoldable pub mark : Worker → ℕ → OutboxRecord → Attempt → List Row → List Row
  unfolding mark_published mark_failed
  mark w now r published table = mark_published w now r table
  mark w now r (raised code arrived) table = mark_failed upper w now r code table

  -- `for record in records`, with the outcome and the time of its mark for each record.
  unfoldable pub dispatch :
      Worker → (OutboxRecord → Attempt) → (OutboxRecord → ℕ) → List OutboxRecord → World → World
  unfolding publish mark
  dispatch w attempt time [] s = s
  dispatch w attempt time (r ∷ rs) s = dispatch w attempt time rs (record {
    table = mark w (time r) r (attempt r) s.table;
    stream = publish r (attempt r) s.stream;
  })

  unfoldable pub dispatch_once :
      Worker
      → ℕ
      → (String → Bool)
      → ℕ
      → (OutboxRecord → Attempt)
      → (OutboxRecord → ℕ)
      → World
      → ℕ × World
  unfolding claim_batch dispatch
  dispatch_once w now skipped limit attempt time s =
      let (records, table) = claim_batch w now skipped limit s.table in
      (
        length records,
        dispatch w attempt time records (record { table = table; stream = s.stream }),
      )
