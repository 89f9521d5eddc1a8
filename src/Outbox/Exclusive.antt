-- ===== src/Outbox/Exclusive.antt =====
-- Leases on rows (backend/moyuan_web/v1/outbox.py).
use route_pilot.Common.{
  ℕ, String, Bool, false, Option, none, some, List, [], ◌∷◌, ◌+◌, ◌*◌, ◌≤◌, ◌≡◌, ◌≢◌, ◌⊎◌, inl, inr,
  sym, subst, arith, Bool-cases,
}
use route_pilot.Common.Eq.{text_equality, ==_iff}
use route_pilot.Common.Sets.{In, member, Distinct}
use route_pilot.Common.Members.{In-append}
use route_pilot.Common.Dict.{lookup}
use route_pilot.Outbox.Repository.{
  Row, OutboxRecord, Worker, row_ids, lock, lease_of, claim_batch, mark_published, mark_failed,
  is_mine, publish_row, fail_row, is_due, is_free, safe_code, delay_seconds, second, selected,
}
use route_pilot.Outbox.Dispatch.{Attempt, published, raised, mark}
use route_pilot.Outbox.Calls.{
  Phase, before_publish, before_mark, System, Call, enqueue, claim, attempt, finish, stop, step,
  run, fresh_row, mark_next,
}
use route_pilot.Outbox.Rows.{kept-update, claimed, not_claimed}
use route_pilot.Outbox.Changes.{is_published, step-Change, Change-Distinct, publish_next-table}
use route_pilot.Outbox.Drain.{record_ids, record_ids-rows}

module _ (w : Worker) (at : ℕ) where
  -- The record that a worker marks next is not the row's.
  abbrev pub MarksOther : Row → Option Phase → Type 0
  MarksOther x (some (before_mark r a rs)) = x.outbox_id ≢ r.outbox_id
  MarksOther x _ = Unit

  -- A claim comes before the lease runs out for the worker that makes it, and a mark by `w` is of
  -- another row.
  abbrev pub IsEarly : Row → System → Call → Type 0
  IsEarly x s (claim v now skipped limit) = now ≤ at + lease_of v
  IsEarly x s (finish v now) =
      (v.worker_id ≢ w.worker_id) ⊎ MarksOther x (lookup v.worker_id s.workers)
  IsEarly x s _ = Unit

  pub record Held (x : Row) : Type 0 where
    pub time : x.locked_at ≡ some at
    pub owner : x.locked_by ≡ some w.worker_id
    pub open_row : is_published x ≡ false

  Held-not_due :
      (v : Worker) (now : ℕ) (x : Row) → Held x → now ≤ at + lease_of v → is_due v now x ≡ false
  unfolding is_due is_free
  Held-not_due v now x h early = ground (arith, h.time)

  Held-not_mine :
      (v : Worker) (r : OutboxRecord) (x : Row)
      → Held x
      → (v.worker_id ≢ w.worker_id) ⊎ (x.outbox_id ≢ r.outbox_id)
      → is_mine v r x ≡ false
  unfolding is_mine
  Held-not_mine v r x h (inl other) = ground (arith, h.owner, ==_iff w.worker_id v.worker_id)
  Held-not_mine v r x h (inr other) = ground (arith, ==_iff x.outbox_id r.outbox_id)

  mark-keeps :
      (upper : String → String) (v : Worker) (now : ℕ) (r : OutboxRecord) (a : Attempt)
      (t : List Row) (x : Row)
      → Held x
      → (v.worker_id ≢ w.worker_id) ⊎ (x.outbox_id ≢ r.outbox_id)
      → In x t
      → In x (mark upper v now r a t)
  unfolding mark mark_published mark_failed
  mark-keeps upper v now r published t x h other i =
      kept-update (is_mine v r) (publish_row now) x t i (Held-not_mine v r x h other)
  mark-keeps upper v now r (raised code arrived) t x h other i =
      kept-update (is_mine v r) (fail_row (now + delay_seconds r * second) (safe_code upper code)) x
        t i (Held-not_mine v r x h other)

  module _ (upper : String → String) where
    mark_next-keeps :
        (v : Worker) (now : ℕ) (p : Option Phase) (s : System) (x : Row)
        → Held x
        → (v.worker_id ≢ w.worker_id) ⊎ MarksOther x p
        → In x s.world.table
        → In x (mark_next upper v now p s).world.table
    unfolding mark_next
    mark_next-keeps v now none s x h other i = i
    mark_next-keeps v now (some (before_publish rs)) s x h other i = i
    mark_next-keeps v now (some (before_mark r a rs)) s x h other i =
        mark-keeps upper v now r a s.world.table x h other i

    step-keeps :
        (c : Call) (s : System) (x : Row)
        → Distinct (row_ids s.world.table)
        → Held x
        → IsEarly x s c
        → In x s.world.table
        → In x (step upper c s).world.table
    unfolding step claim_batch
    step-keeps (enqueue r) s x d h early i =
        elim (Bool-cases (member r.outbox_id (row_ids s.world.table))) [
          | inl m ↦ rw m i
          | inr m ↦ rw m (In-append x s.world.table (fresh_row r ∷ []) i)
        ]
    step-keeps (claim v now skipped limit) s x d h early i =
        kept-update (claimed v now skipped limit s.world.table) (lock v now) x s.world.table i
          (not_claimed v now skipped limit s.world.table x d i (Held-not_due v now x h early))
    step-keeps (attempt v a) s x d h early i =
        subst (In x) (sym (publish_next-table v a (lookup v.worker_id s.workers) s)) i
    step-keeps (finish v now) s x d h early i =
        mark_next-keeps v now (lookup v.worker_id s.workers) s x h early i
    step-keeps (stop v) s x d h early i = i

    -- Each call of the history is early, in the state that it meets.
    abbrev pub AllEarly : Row → System → List Call → Type 0
    AllEarly x s [] = Unit
    AllEarly x s (c ∷ cs) = IsEarly x s c × AllEarly x (step upper c s) cs

    run-keeps :
        (cs : List Call) (s : System) (x : Row)
        → Distinct (row_ids s.world.table)
        → Held x
        → AllEarly x s cs
        → In x s.world.table
        → Distinct (row_ids (run upper cs s).world.table) × In x (run upper cs s).world.table
    unfolding run
    run-keeps [] s x d h early i = (d, i)
    run-keeps (c ∷ cs) s x d h early i =
        run-keeps cs (step upper c s) x
          (Change-Distinct s.world.table (step upper c s).world.table (step-Change upper c s d) d) h
          early.1 (step-keeps c s x d h early.0 i)

    -- While a worker holds a row, and until it marks this very row, the row stays as it is and no
    -- claim returns its record, whatever other rows the worker marks, if each claim comes no later
    -- than the lease of its caller lasts from the time of the lock.
    pub claim_exclusive :
        (cs : List Call) (s : System) (x : Row) (v : Worker) (now : ℕ) (skipped : String → Bool)
        (limit : ℕ)
        → Distinct (row_ids s.world.table)
        → In x s.world.table
        → Held x
        → AllEarly x s cs
        → now ≤ at + lease_of v
        → let table = (run upper cs s).world.table in
          In x table
          × (member x.outbox_id (record_ids (claim_batch v now skipped limit table).0) ≡ false)
    unfolding claim_batch
    claim_exclusive cs s x v now skipped limit d i h early soon =
        let (d', i') = run-keeps cs s x d h early i in
        let table = (run upper cs s).world.table in
        (
          i',
          subst (λ ids. member x.outbox_id ids ≡ false)
              (sym (record_ids-rows (selected v now skipped limit table)))
              (not_claimed v now skipped limit table x d' i' (Held-not_due v now x h soon)),
        )
