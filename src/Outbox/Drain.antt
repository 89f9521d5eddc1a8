-- ===== src/Outbox/Drain.antt =====
-- Progress (backend/moyuan_web/v1/outbox.py): a round of the dispatcher publishes what is due.
use route_pilot.Common.{
  ℕ, String, Bool, true, false, ◌&&◌, not, some, List, [], ◌∷◌, ◌≤◌, ◌≡◌, inl, inr, refl, ap, sym,
  subst, arith, each, keep, Bool-cases, length,
}
use route_pilot.Common.Eq.{◌==◌, text_equality, ==_iff, ==_refl}
use route_pilot.Common.Sets.{In, member_iff}
use route_pilot.Common.Members.{In-keep, In-take, In-sorted, length-sorted}
use route_pilot.Common.Sort.{sorted}
use route_pilot.Outbox.Repository.{
  Row, OutboxRecord, Worker, row_ids, update, lock, claim_batch, mark_published, is_mine,
  publish_row, is_due, selected, created_before, batch_size, record_of,
}
use route_pilot.Outbox.Dispatch.{Attempt, published, World, mark, publish, dispatch, dispatch_once}
use route_pilot.Outbox.Rows.{kept-update, changed-update, claimed, wanted, In-ids}
use route_pilot.Outbox.Changes.{is_published}

abbrev pub all_arrive : OutboxRecord → Attempt
all_arrive r = published

abbrev pub record_ids : List OutboxRecord → List String
record_ids rs = each (λ (r : OutboxRecord). r.outbox_id) rs

-- A row of the identifier is published, and the identifier is in the stream.
abbrev pub IsOut : String → World → Type 0
IsOut id s =
    (y : Row) × In y s.table × (y.outbox_id ≡ id) × (is_published y ≡ true) × In id s.stream

module _ (upper : String → String) (w : Worker) (time : OutboxRecord → ℕ) where
  abbrev after_one : OutboxRecord → World → World
  after_one r s = record {
    table = mark upper w (time r) r published s.table;
    stream = publish r published s.stream;
  }

  IsOut-one : (r : OutboxRecord) (s : World) (id : String) → IsOut id s → IsOut id (after_one r s)
  unfolding mark mark_published publish is_mine
  IsOut-one r s id (y, i, e, p, sent) = (
    y,
    kept-update (is_mine w r) (publish_row (time r)) y s.table i (ground arith),
    e,
    p,
    inr sent,
  )

  IsOut-dispatch :
      (rs : List OutboxRecord) (s : World) (id : String)
      → IsOut id s
      → IsOut id (dispatch upper w all_arrive time rs s)
  unfolding dispatch
  IsOut-dispatch [] s id h = h
  IsOut-dispatch (r ∷ rs) s id h = IsOut-dispatch rs (after_one r s) id (IsOut-one r s id h)

  -- A row that the worker has locked is published if its record is among those that it publishes.
  dispatch-IsOut :
      (rs : List OutboxRecord) (s : World) (x : Row)
      → In x s.table
      → x.locked_by ≡ some w.worker_id
      → is_published x ≡ false
      → In x.outbox_id (record_ids rs)
      → IsOut x.outbox_id (dispatch upper w all_arrive time rs s)
  unfolding dispatch each mark mark_published publish is_mine
  dispatch-IsOut [] s x i l p m = absurd m
  dispatch-IsOut (r ∷ rs) s x i l p m = elim (Bool-cases (x.outbox_id == r.outbox_id)) [
    | inl e ↦ IsOut-dispatch rs (after_one r s) x.outbox_id (first e)
    | inr e ↦
        dispatch-IsOut rs (after_one r s) x (other e) l p
          (elim m as (λ _. In x.outbox_id (record_ids rs)) [
            | inl q ↦ absurd (ground (arith, (==_iff x.outbox_id r.outbox_id).1 q))
            | inr j ↦ j
          ])
  ]
    where
      mine : (x.outbox_id == r.outbox_id) ≡ true → is_mine w r x ≡ true
      mine e = ground (arith, e, l, p, ==_refl w.worker_id)

      first : (x.outbox_id == r.outbox_id) ≡ true → IsOut x.outbox_id (after_one r s)
      first e = (
        publish_row (time r) x,
        changed-update (is_mine w r) (publish_row (time r)) x s.table i (mine e),
        refl,
        refl,
        inl ((==_iff x.outbox_id r.outbox_id).0 e),
      )

      other : (x.outbox_id == r.outbox_id) ≡ false → In x (after_one r s).table
      other e = kept-update (is_mine w r) (publish_row (time r)) x s.table i (ground (arith, e))

length-keep :
    (p q : Row → Bool) (xs : List Row) → length (keep (λ r. p r && q r) xs) ≤ length (keep p xs)
unfolding keep
length-keep p q [] = omega arith
length-keep p q (x ∷ xs) = ground (arith, length-keep p q xs)

pub record_ids-rows : (rows : List Row) → record_ids (each record_of rows) ≡ row_ids rows
unfolding each record_of
record_ids-rows [] = refl
record_ids-rows (r ∷ rows) = ap (λ ids. r.outbox_id ∷ ids) (record_ids-rows rows)

pub due-unpublished :
    (w : Worker) (now : ℕ) (x : Row) → is_due w now x ≡ true → is_published x ≡ false
unfolding is_due
due-unpublished w now x h = ground arith

-- If no more rows are due than one batch holds, and the publisher accepts every record, one round of
-- the dispatcher publishes each row that is due and that no other transaction has locked: it is in
-- the stream, and it is marked.
pub dispatch_once_drains :
    (upper : String → String) (w : Worker) (now : ℕ) (skipped : String → Bool) (limit : ℕ)
    (time : OutboxRecord → ℕ) (s : World) (x : Row)
    → length (keep (is_due w now) s.table) ≤ batch_size limit
    → In x s.table
    → is_due w now x ≡ true
    → skipped x.outbox_id ≡ false
    → IsOut x.outbox_id (dispatch_once upper w now skipped limit all_arrive time s).1
unfolding dispatch_once claim_batch
dispatch_once_drains upper w now skipped limit time s x few i due free =
    let table = s.table in
    let mine = wanted w now skipped limit table in
    let some_rows = keep mine table in
    let short = length-keep (is_due w now) (λ r. not (skipped r.outbox_id)) table in
    let chosen : In x (selected w now skipped limit table) =
      In-take (batch_size limit) x (sorted created_before some_rows)
        (omega (arith, length-sorted created_before some_rows, short))
        (In-sorted created_before x some_rows
          (In-keep mine x table i (ground (arith, due, free)))) in
    let ids = row_ids (selected w now skipped limit table) in
    let named : In x.outbox_id ids = In-ids x (selected w now skipped limit table) chosen in
    dispatch-IsOut upper w time (each record_of (selected w now skipped limit table))
      (record {
        table = update (claimed w now skipped limit table) (lock w now) table;
        stream = s.stream;
      })
      (lock w now x)
      (changed-update (claimed w now skipped limit table) (lock w now) x table i
        ((member_iff x.outbox_id ids).1 named))
      refl (due-unpublished w now x due)
      (subst (In x.outbox_id) (sym (record_ids-rows (selected w now skipped limit table))) named)
