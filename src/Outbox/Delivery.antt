-- ===== src/Outbox/Delivery.antt =====
-- At least once (backend/moyuan_web/v1/outbox.py): what is marked as published was published.
use route_pilot.Common.{
  String, true, false, Option, none, some, List, [], ◌∷◌, ◌+◌, ◌*◌, ◌≡◌, ℕ, inl, inr, refl, sym,
  subst, arith, All, All-append, Bool-cases,
}
use route_pilot.Common.Eq.{text_equality, ==_iff}
use route_pilot.Common.Sets.{In, member}
use route_pilot.Common.Dict.{lookup, Entries, Entries-insert, Entries-remove, Entries-lookup}
use route_pilot.Outbox.Repository.{
  Row, OutboxRecord, Worker, row_ids, lock, claim_batch, mark_published, mark_failed, is_mine,
  publish_row, fail_row, safe_code, delay_seconds, second,
}
use route_pilot.Outbox.Dispatch.{Attempt, published, raised, mark, publish}
use route_pilot.Outbox.Calls.{
  Phase, before_publish, before_mark, System, Call, enqueue, claim, attempt, finish, stop, step,
  run, fresh_row, publish_next, mark_next, empty,
}
use route_pilot.Outbox.Rows.{All-update, claimed}
use route_pilot.Outbox.Changes.{is_published}

-- A published row's identifier is in the stream.
abbrev pub IsSent : List String → Row → Type 0
IsSent stream r = is_published r ≡ true → In r.outbox_id stream

abbrev PhaseSent : List String → String → Phase → Type 0
PhaseSent stream id (before_mark r published rs) = In r.outbox_id stream
PhaseSent stream id _ = Unit

abbrev Sent : System → Type 0
Sent s = All (IsSent s.world.stream) s.world.table × Entries (PhaseSent s.world.stream) s.workers

IsSent-mark :
    (upper : String → String) (stream : List String) (w : Worker) (now : ℕ) (r : OutboxRecord)
    (a : Attempt) (rs : List OutboxRecord) (t : List Row)
    → PhaseSent stream w.worker_id (before_mark r a rs)
    → All (IsSent stream) t
    → All (IsSent stream) (mark upper w now r a t)
unfolding mark mark_published mark_failed is_mine
IsSent-mark upper stream w now r published rs t sent h =
    All-update (IsSent stream) (is_mine w r) (publish_row now) t
      (λ x p mine _.
        subst (λ id. In id stream) (sym ((==_iff x.outbox_id r.outbox_id).0 (ground arith))) sent)
      h
IsSent-mark upper stream w now r (raised code arrived) rs t sent h =
    All-update (IsSent stream) (is_mine w r)
      (fail_row (now + delay_seconds r * second) (safe_code upper code)) t (λ x p mine. p) h

All-imp :
    {A : Type 0} (P Q : A → Type 0) (xs : List A) → ((x : A) → P x → Q x) → All P xs → All Q xs
All-imp P Q [] f h = tt
All-imp P Q (x ∷ xs) f h = (f x h.0, All-imp P Q xs f h.1)

publish_mono :
    (r : OutboxRecord) (a : Attempt) (stream : List String) (id : String)
    → In id stream
    → In id (publish r a stream)
unfolding publish
publish_mono r published stream id i = inr i
publish_mono r (raised code true) stream id i = inr i
publish_mono r (raised code false) stream id i = i

PhaseSent-mono :
    (r : OutboxRecord) (a : Attempt) (stream : List String) (id : String) (p : Phase)
    → PhaseSent stream id p
    → PhaseSent (publish r a stream) id p
PhaseSent-mono r a stream id (before_publish rs) h = tt
PhaseSent-mono r a stream id (before_mark q published rs) h = publish_mono r a stream q.outbox_id h
PhaseSent-mono r a stream id (before_mark q (raised code arrived) rs) h = tt

PhaseSent-new :
    (r : OutboxRecord) (a : Attempt) (stream : List String) (id : String) (rs : List OutboxRecord)
    → PhaseSent (publish r a stream) id (before_mark r a rs)
unfolding publish
PhaseSent-new r published stream id rs = inl refl
PhaseSent-new r (raised code arrived) stream id rs = tt

publish_next-Sent :
    (w : Worker) (a : Attempt) (p : Option Phase) (s : System)
    → Sent s
    → Sent (publish_next w a p s)
unfolding publish_next
publish_next-Sent w a none s h = h
publish_next-Sent w a (some (before_publish [])) s h = h
publish_next-Sent w a (some (before_mark r b rs)) s h = h
publish_next-Sent w a (some (before_publish (r ∷ rs))) s (rows, phases) =
    let stream = s.world.stream in
    let stream' = publish r a stream in
    (
      All-imp (IsSent stream) (IsSent stream') s.world.table
          (λ x h p. publish_mono r a stream x.outbox_id (h p)) rows,
      Entries-insert (PhaseSent stream') w.worker_id (before_mark r a rs) s.workers
          (PhaseSent-new r a stream w.worker_id rs)
          (All-imp (λ (e : String × Phase). PhaseSent stream e.0 e.1)
            (λ (e : String × Phase). PhaseSent stream' e.0 e.1) s.workers
            (λ e. PhaseSent-mono r a stream e.0 e.1) phases),
    )

module _ (upper : String → String) where
  mark_next-Sent :
      (w : Worker) (now : ℕ) (p : Option Phase) (s : System)
      → lookup w.worker_id s.workers ≡ p
      → Sent s
      → Sent (mark_next upper w now p s)
  unfolding mark_next
  mark_next-Sent w now none s e h = h
  mark_next-Sent w now (some (before_publish rs)) s e h = h
  mark_next-Sent w now (some (before_mark r a rs)) s e (rows, phases) =
      let stream = s.world.stream in
      (
        IsSent-mark upper stream w now r a rs s.world.table
            (Entries-lookup (PhaseSent stream) w.worker_id (before_mark r a rs) s.workers phases e)
            rows,
        Entries-insert (PhaseSent stream) w.worker_id (before_publish rs) s.workers tt phases,
      )

  step-Sent : (c : Call) (s : System) → Sent s → Sent (step upper c s)
  unfolding step claim_batch
  step-Sent (enqueue r) s (rows, phases) =
      elim (Bool-cases (member r.outbox_id (row_ids s.world.table))) [
        | inl h ↦ rw h (rows, phases)
        | inr h ↦ rw h (
          All-append (IsSent s.world.stream) s.world.table (fresh_row r ∷ []) rows
              ((λ p. absurd (ground arith)), tt),
          phases,
        )
      ]
  step-Sent (claim w now skipped limit) s (rows, phases) = (
    All-update (IsSent s.world.stream) (claimed w now skipped limit s.world.table) (lock w now)
        s.world.table (λ x p _. p) rows,
    Entries-insert (PhaseSent s.world.stream) w.worker_id _ s.workers tt phases,
  )
  step-Sent (attempt w a) s h = publish_next-Sent w a (lookup w.worker_id s.workers) s h
  step-Sent (finish w now) s h = mark_next-Sent w now (lookup w.worker_id s.workers) s refl h
  step-Sent (stop w) s (rows, phases) =
      (rows, Entries-remove (PhaseSent s.world.stream) w.worker_id s.workers phases)

  run-Sent : (cs : List Call) (s : System) → Sent s → Sent (run upper cs s)
  unfolding run
  run-Sent [] s h = h
  run-Sent (c ∷ cs) s h = run-Sent cs (step upper c s) (step-Sent c s h)

  -- At least once: after every history of workers that claim, publish, mark and stop at any point,
  -- the identifier of each row that is marked as published is in the stream.
  pub published_delivered :
      (cs : List Call)
      → All (IsSent (run upper cs empty).world.stream) (run upper cs empty).world.table
  published_delivered cs = (run-Sent cs empty (tt, tt)).0
