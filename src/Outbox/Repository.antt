-- ===== src/Outbox/Repository.antt =====
-- PostgresOutboxRepository of backend/moyuan_web/v1/outbox.py. The table is the list of its rows;
-- a method is one transaction. `skipped` tells the rows that other transactions have locked, and a
-- time is in microseconds. `upper` is `str.upper`.
use Prim.Native.Char.{code}
use route_pilot.Common.{
  ℕ, zero, suc, String, Bool, true, false, ◌&&◌, ◌||◌, not, Option, none, some, List, [], ◌∷◌, ◌+◌,
  ◌*◌, ◌^◌, ltb, leb, eqb, if◌then◌else◌, keep, each, is_some,
}
use route_pilot.Common.Eq.{◌==◌, text_equality}
use route_pilot.Common.Sets.{member}
use route_pilot.Common.Sort.{sorted}
use route_pilot.Common.Members.{take}
use route_pilot.Common.Json.{Json, Fields}

pub record Row : Type 0 where
  pub outbox_id : String
  pub tenant_id : String
  pub aggregate_type : String
  pub aggregate_id : String
  pub event_type : String
  pub payload : Json
  pub publish_attempts : ℕ
  pub available_at : ℕ
  pub created_at : ℕ
  pub locked_at : Option ℕ
  pub locked_by : Option String
  pub published_at : Option ℕ
  pub last_error : Option String

pub record OutboxRecord : Type 0 where
  pub outbox_id : String
  pub tenant_id : String
  pub aggregate_type : String
  pub aggregate_id : String
  pub event_type : String
  pub payload : Json
  pub publish_attempts : ℕ

abbrev pub second : ℕ
second = 1_000_000

-- `lease_seconds = max(10, lease_seconds)`, in microseconds.
pub record Worker : Type 0 where
  pub worker_id : String
  pub lease_seconds : ℕ

unfoldable pub lease_of : Worker → ℕ
lease_of w = (if ltb w.lease_seconds 10 then 10 else w.lease_seconds) * second

-- `locked_at < now - lease`, without the subtraction.
unfoldable pub is_free : Worker → ℕ → Row → Bool
unfolding lease_of
is_free w now r = elim r.locked_at [ none ↦ true | some at ↦ ltb (at + lease_of w) now ]

unfoldable pub is_due : Worker → ℕ → Row → Bool
unfolding is_free
is_due w now r = not (is_some r.published_at) && (leb r.available_at now && is_free w now r)

unfoldable pub created_before : Row → Row → Bool
created_before a b = ltb a.created_at b.created_at

-- `max(1, min(limit, 500))`.
unfoldable pub batch_size : ℕ → ℕ
batch_size limit = if eqb limit 0 then 1 else if ltb limit 500 then limit else 500

unfoldable pub selected : Worker → ℕ → (String → Bool) → ℕ → List Row → List Row
unfolding keep is_due sorted created_before take batch_size
selected w now skipped limit table =
    take (batch_size limit)
      (sorted created_before (keep (λ r. is_due w now r && not (skipped r.outbox_id)) table))

abbrev pub row_ids : List Row → List String
row_ids rows = each (λ (r : Row). r.outbox_id) rows

abbrev pub lock : Worker → ℕ → Row → Row
lock w now r = record r {
  locked_at = some now;
  locked_by = some w.worker_id;
  publish_attempts = r.publish_attempts + 1;
}

-- `payload` is an object, or an empty one is published.
unfoldable pub payload_of : Json → Json
payload_of (Json.obj fields) = Json.obj fields
payload_of _ = Json.obj Fields.end

unfoldable pub record_of : Row → OutboxRecord
unfolding payload_of
record_of r = record {
  outbox_id = r.outbox_id;
  tenant_id = r.tenant_id;
  aggregate_type = r.aggregate_type;
  aggregate_id = r.aggregate_id;
  event_type = r.event_type;
  payload = payload_of r.payload;
  publish_attempts = r.publish_attempts + 1;
}

-- `UPDATE ... WHERE test`.
unfoldable pub update : (Row → Bool) → (Row → Row) → List Row → List Row
update test change [] = []
update test change (r ∷ rs) = (if test r then change r else r) ∷ update test change rs

unfoldable pub claim_batch :
    Worker → ℕ → (String → Bool) → ℕ → List Row → List OutboxRecord × List Row
unfolding selected each record_of update member
claim_batch w now skipped limit table =
    let rows = selected w now skipped limit table in
    (each record_of rows, update (λ r. member r.outbox_id (row_ids rows)) (lock w now) table)

-- The rows that a mark of the record changes.
unfoldable pub is_mine : Worker → OutboxRecord → Row → Bool
is_mine w event r =
    r.outbox_id == event.outbox_id
    && ((elim r.locked_by [ none ↦ false | some by ↦ by == w.worker_id ])
        && not (is_some r.published_at))

abbrev pub publish_row : ℕ → Row → Row
publish_row now r = record r {
  published_at = some now;
  locked_at = none;
  locked_by = none;
  last_error = none;
}

unfoldable pub mark_published : Worker → ℕ → OutboxRecord → List Row → List Row
unfolding update is_mine
mark_published w now r table = update (is_mine w r) (publish_row now) table

-- `[A-Z0-9_]`.
unfoldable pub is_code_char : ℕ → Bool
is_code_char c = (leb 65 c && leb c 90) || ((leb 48 c && leb c 57) || eqb c 95)

-- `re.sub(r"[^A-Z0-9_]", "_", text)[:n]`.
unfoldable pub code_text : ℕ → String → String
unfolding is_code_char
code_text zero s = ""
code_text (suc n) String.[] = ""
code_text (suc n) (String.◌∷◌ c s) =
    let rest = code_text n s in
    if is_code_char (code c) then String.◌∷◌ c rest else Prim.Native.String.◌++◌ "_" rest

unfoldable pub or_default : String → String
or_default String.[] = "PUBLISH_FAILED"
or_default (String.◌∷◌ c s) = String.◌∷◌ c s

unfoldable pub safe_code : (String → String) → String → String
unfolding code_text or_default
safe_code upper error_code = or_default (code_text 96 (upper error_code))

-- `min(300, 2 ** min(record.publish_attempts, 8))`.
unfoldable pub delay_seconds : OutboxRecord → ℕ
delay_seconds r =
    let power = 2 ^ (if ltb r.publish_attempts 8 then r.publish_attempts else 8) in
    if ltb power 300 then power else 300

abbrev pub fail_row : ℕ → String → Row → Row
fail_row available message r = record r {
  available_at = available;
  locked_at = none;
  locked_by = none;
  last_error = some message;
}

unfoldable pub mark_failed :
    (String → String) → Worker → ℕ → OutboxRecord → String → List Row → List Row
unfolding update is_mine safe_code delay_seconds
mark_failed upper w now r error_code table =
    update (is_mine w r) (fail_row (now + delay_seconds r * second) (safe_code upper error_code))
      table
