-- ===== src/Outbox/Changes.antt =====
-- How one step of a history changes the outbox's table (backend/moyuan_web/v1/outbox.py), and what
-- every change keeps: unique identifiers, and the rows that are published.
use route_pilot.Common.{
  ℕ, String, Bool, true, false, Option, none, some, List, [], ◌∷◌, ◌++◌, ◌+◌, ◌*◌, ◌≡◌, ◌≢◌, inl,
  inr, refl, ap, sym, subst, arith, each, All-append, is_some, Bool-cases,
}
use route_pilot.Common.Eq.{text_equality, ==_iff}
use route_pilot.Common.Sets.{In, member, Distinct}
use route_pilot.Common.Members.{In-append}
use route_pilot.Common.Dict.{lookup}
use route_pilot.Outbox.Repository.{
  Row, OutboxRecord, Worker, row_ids, update, lock, claim_batch, mark_published, mark_failed,
  is_mine, publish_row, fail_row, is_due, safe_code, delay_seconds, second,
}
use route_pilot.Outbox.Dispatch.{Attempt, published, raised, mark}
use route_pilot.Outbox.Calls.{
  Phase, before_publish, before_mark, System, Call, enqueue, claim, attempt, finish, stop, step,
  run, fresh_row, publish_next, mark_next,
}
use route_pilot.Outbox.Rows.{update-ids, kept-update, claimed, not_claimed}

abbrev pub is_published : Row → Bool
is_published r = is_some r.published_at

-- A row is put behind the others, or rows that are not published are written over.
pub data Change (t : List Row) (t' : List Row) : Type 0 where
  same : t' ≡ t → Change t t'
  added :
      (r : Row)
      → member r.outbox_id (row_ids t) ≡ false
      → t' ≡ (t ++ fresh_row r ∷ [])
      → Change t t'
  updated :
      (test : Row → Bool) (change : Row → Row)
      → t' ≡ update test change t
      → ((r : Row) → (change r).outbox_id ≡ r.outbox_id)
      → ((r : Row) → In r t → is_published r ≡ true → test r ≡ false)
      → Change t t'

published_not_due :
    (w : Worker) (now : ℕ) (r : Row) → is_published r ≡ true → is_due w now r ≡ false
unfolding is_due
published_not_due w now r h = ground arith

mark-Change :
    (upper : String → String) (w : Worker) (now : ℕ) (r : OutboxRecord) (a : Attempt) (t : List Row)
    → Change t (mark upper w now r a t)
unfolding mark mark_published mark_failed is_mine
mark-Change upper w now r published t =
    updated (is_mine w r) (publish_row now) refl (λ x. refl) (λ x i h. ground arith)
mark-Change upper w now r (raised code arrived) t =
    updated (is_mine w r) (fail_row (now + delay_seconds r * second) (safe_code upper code)) refl
      (λ x. refl) (λ x i h. ground arith)

pub publish_next-table :
    (w : Worker) (a : Attempt) (p : Option Phase) (s : System)
    → (publish_next w a p s).world.table ≡ s.world.table
unfolding publish_next
publish_next-table w a none s = refl
publish_next-table w a (some (before_publish [])) s = refl
publish_next-table w a (some (before_publish (r ∷ rs))) s = refl
publish_next-table w a (some (before_mark r b rs)) s = refl

module _ (upper : String → String) where
  mark_next-Change :
      (w : Worker) (now : ℕ) (p : Option Phase) (s : System)
      → Change s.world.table (mark_next upper w now p s).world.table
  unfolding mark_next
  mark_next-Change w now none s = same refl
  mark_next-Change w now (some (before_publish rs)) s = same refl
  mark_next-Change w now (some (before_mark r a rs)) s = mark-Change upper w now r a s.world.table

  pub step-Change :
      (c : Call) (s : System)
      → Distinct (row_ids s.world.table)
      → Change s.world.table (step upper c s).world.table
  unfolding step claim_batch
  step-Change (enqueue r) s d = elim (Bool-cases (member r.outbox_id (row_ids s.world.table))) [
    | inl h ↦ same (rw h refl)
    | inr h ↦ added r h (rw h refl)
  ]
  step-Change (claim w now skipped limit) s d =
      let table = s.world.table in
      updated (claimed w now skipped limit table) (lock w now) refl (λ r. refl)
        (λ r i h. not_claimed w now skipped limit table r d i (published_not_due w now r h))
  step-Change (attempt w a) s d = same (publish_next-table w a (lookup w.worker_id s.workers) s)
  step-Change (finish w now) s d = mark_next-Change w now (lookup w.worker_id s.workers) s
  step-Change (stop w) s d = same refl

ids-append : (t : List Row) (r : Row) → row_ids (t ++ r ∷ []) ≡ (row_ids t ++ r.outbox_id ∷ [])
unfolding each
ids-append [] r = refl
ids-append (x ∷ t) r = ap (λ ids. x.outbox_id ∷ ids) (ids-append t r)

Distinct-append :
    (ids : List String) (id : String)
    → Distinct ids
    → member id ids ≡ false
    → Distinct (ids ++ id ∷ [])
unfolding member
Distinct-append [] id d h = (tt, tt)
Distinct-append (x ∷ ids) id d h =
    let fresh : id ≢ x = λ e. ground (arith, (==_iff id x).1 e) in
    (
      All-append (λ y. x ≢ y) ids (id ∷ []) d.0 ((λ e. fresh (sym e)), tt),
      Distinct-append ids id d.1 (ground arith),
    )

pub Change-Distinct : (t t' : List Row) → Change t t' → Distinct (row_ids t) → Distinct (row_ids t')
Change-Distinct t t' (same e) d = subst (λ x. Distinct (row_ids x)) (sym e) d
Change-Distinct t t' (added r h e) d =
    subst (λ x. Distinct (row_ids x)) (sym e)
      (subst Distinct (sym (ids-append t (fresh_row r)))
        (Distinct-append (row_ids t) r.outbox_id d h))
Change-Distinct t t' (updated test change e ids final) d =
    subst (λ x. Distinct (row_ids x)) (sym e)
      (subst Distinct (sym (update-ids test change t ids)) d)

Change-published :
    (t t' : List Row) (r : Row) → Change t t' → In r t → is_published r ≡ true → In r t'
Change-published t t' r (same e) i h = subst (In r) (sym e) i
Change-published t t' r (added q p e) i h =
    subst (In r) (sym e) (In-append r t (fresh_row q ∷ []) i)
Change-published t t' r (updated test change e ids final) i h =
    subst (In r) (sym e) (kept-update test change r t i (final r i h))

module _ (upper : String → String) where
  pub run-Distinct :
      (cs : List Call) (s : System)
      → Distinct (row_ids s.world.table)
      → Distinct (row_ids (run upper cs s).world.table)
  unfolding run
  run-Distinct [] s d = d
  run-Distinct (c ∷ cs) s d =
      run-Distinct cs (step upper c s)
        (Change-Distinct s.world.table (step upper c s).world.table (step-Change upper c s d) d)

  -- A row that is published, in a table whose identifiers are unique, stays as it is whatever calls
  -- follow: no claim locks it again, and no mark of a late worker changes it.
  pub published_final :
      (cs : List Call) (s : System) (r : Row)
      → Distinct (row_ids s.world.table)
      → In r s.world.table
      → is_published r ≡ true
      → In r (run upper cs s).world.table
  unfolding run
  published_final [] s r d i h = i
  published_final (c ∷ cs) s r d i h =
      let change = step-Change upper c s d in
      let t = s.world.table in
      let t' = (step upper c s).world.table in
      published_final cs (step upper c s) r (Change-Distinct t t' change d)
        (Change-published t t' r change i h) h
