-- ===== src/Platform/Store/Invariant.antt =====
-- What every history of InMemoryPlatformStore keeps about runs, their events and their leases.
use mathlib.Core.Option.{get_or}
use route_pilot.Common.{
  ℕ, ◌+◌, String, ◌≡◌, refl, subst, ◌∙◌, inl, inr, Bool, true, false, Option, none, some, List, [],
  ◌∷◌, ◌++◌, arith, length, or_empty, if◌then◌else◌, Bool-cases, length-append,
}
use route_pilot.Common.Eq.{◌==◌, ==_iff, ==_refl, eq_of_==, text_equality}
use route_pilot.Common.Dict.{Dict, lookup, insert, remove, lookup-insert, lookup-remove}
use route_pilot.Platform.Models.{Principal, RunView, RunEvent}
use route_pilot.Platform.Contracts.{Models}
use route_pilot.Platform.Store.State.{Store, RunExecutionLease, is_executable, init}
use route_pilot.Platform.Store.Mutation.{releases_lease}
use route_pilot.Platform.Store.History.{Call, run, run_induction}
use route_pilot.Platform.Store.Core.Quiet.{Core, core}
use route_pilot.Platform.Store.Core.Steps.{
  Step, stay, accepted, changed, granted, renewed, dropped, changed_core, accepted_core, appended,
}

-- The run is there, and is queued or running.
abbrev pub executable_run : Option RunView → Bool
executable_run none = false
executable_run (some r) = is_executable r.lifecycle_state

-- Events of one run, numbered upwards from the one after `n`.
abbrev pub IsNumbered : String → ℕ → List RunEvent → Type 0
IsNumbered id n [] = Unit {0}
IsNumbered id n (e ∷ es) = (e.seq ≡ n + 1) × (e.run_id ≡ id) × IsNumbered id (n + 1) es

abbrev pub events_at : String → Core → List RunEvent
events_at id c = or_empty (lookup id c.events)

pub record Sound (c : Core) : Type 0 where
  -- a held lease carries the latest attempt number of its run
  pub latest :
      (id : String) (l : RunExecutionLease)
      → lookup id c.execution_leases ≡ some l
      → l.attempt ≡ get_or (lookup id c.execution_attempts) 0
  -- and its run is queued or running
  pub executable :
      (id : String) (l : RunExecutionLease)
      → lookup id c.execution_leases ≡ some l
      → executable_run (lookup id c.runs) ≡ true
  pub keyed : (id : String) (r : RunView) → lookup id c.runs ≡ some r → r.run_id ≡ id
  -- a run has as many events as its control version
  pub counted :
      (id : String) (r : RunView)
      → lookup id c.runs ≡ some r
      → r.control_version ≡ length (events_at id c)
  -- numbered 1, 2, 3 and so on
  pub numbered : (id : String) → IsNumbered id 0 (events_at id c)

IsNumbered-append :
    (id : String) (n : ℕ) (es : List RunEvent) (e : RunEvent)
    → IsNumbered id n es
    → e.run_id ≡ id
    → e.seq ≡ n + length es + 1
    → IsNumbered id n (es ++ e ∷ [])
IsNumbered-append id n [] e h r q = (omega arith, r, tt)
IsNumbered-append id n (x ∷ es) e h r q =
    (h.0, h.1, IsNumbered-append id (n + 1) es e h.2 r (omega arith))

-- The lists of events after one more event.
events-appended :
    (id : String) (e : RunEvent) (events : Dict String (List RunEvent))
    → or_empty (lookup id (appended e events)) ≡ (
        if e.run_id == id
        then or_empty (lookup e.run_id events) ++ e ∷ []
        else or_empty (lookup id events))
unfolding appended
events-appended id e events = rw lookup-insert (ground arith)

-- One more event, with the next number, keeps every list numbered.
IsNumbered-appended :
    (id : String) (e : RunEvent) (events : Dict String (List RunEvent))
    → ((j : String) → IsNumbered j 0 (or_empty (lookup j events)))
    → e.seq ≡ length (or_empty (lookup e.run_id events)) + 1
    → IsNumbered id 0 (or_empty (lookup id (appended e events)))
IsNumbered-appended id e events h q = elim (Bool-cases (e.run_id == id)) [
  | inl t ↦
      rw (events-appended id e events, t)
        (subst (λ j. IsNumbered j 0 (or_empty (lookup e.run_id events) ++ e ∷ []))
          (eq_of_== e.run_id id t)
          (IsNumbered-append e.run_id 0 _ e (h e.run_id) refl (omega (arith, q))))
  | inr t ↦ rw (events-appended id e events, t) (h id)
]

releases-executable :
    (r : RunView)
    → releases_lease r.lifecycle_state ≡ false
    → is_executable r.lifecycle_state ≡ true
unfolding releases_lease is_executable
releases-executable r h = ground arith

changed-Sound :
    (id : String) (current updated : RunView) (event : RunEvent) (c : Core)
    → lookup id c.runs ≡ some current
    → updated.run_id ≡ id
    → updated.control_version ≡ current.control_version + 1
    → event.run_id ≡ id
    → event.seq ≡ length (events_at id c) + 1
    → Sound c
    → Sound (changed_core id updated event c)
unfolding changed_core
changed-Sound id current updated event c h k n r q v = record {
  latest = λ j l. ground (arith, lookup-remove id j c.execution_leases, v.latest j l);
  executable = λ j l. simp lookup-insert (
      ground (
        arith,
        ==_iff id j,
        lookup-remove id j c.execution_leases,
        releases-executable updated,
        v.executable j l,
      ));
  keyed = λ j x. simp lookup-insert (ground (arith, ==_iff id j, v.keyed j x));
  counted = λ j x.
      simp (lookup-insert, events-appended)
        (ground (
          arith,
          ==_iff id j,
          ==_iff event.run_id j,
          v.counted j x,
          v.counted id current,
          length-append (or_empty (lookup event.run_id c.events)) (event ∷ []),
        ));
  numbered = λ j. IsNumbered-appended j event c.events v.numbered (rw r q);
}

IsNumbered-cleared :
    (id : String) (c : Core)
    → Sound c
    → (j : String) → IsNumbered j 0 (or_empty (lookup j (insert id [] c.events)))
IsNumbered-cleared id c v j =
    rw lookup-insert (elim (Bool-cases (id == j)) [ inl t ↦ rw t tt | inr t ↦ rw t (v.numbered j) ])

accepted-Sound :
    (run : RunView) (event : RunEvent) (c : Core)
    → run.control_version ≡ 1
    → is_executable run.lifecycle_state ≡ true
    → event.run_id ≡ run.run_id
    → event.seq ≡ length (or_empty (lookup run.run_id (insert run.run_id [] c.events))) + 1
    → Sound c
    → Sound (accepted_core run event c)
unfolding accepted_core
accepted-Sound run event c one x r q v = record {
  latest = v.latest;
  executable = λ j l. simp lookup-insert (ground (arith, ==_iff run.run_id j, v.executable j l));
  keyed = λ j y. simp lookup-insert (ground (arith, ==_iff run.run_id j, v.keyed j y));
  counted = λ j y.
      simp (lookup-insert, events-appended)
        (ground (
          arith,
          ==_iff run.run_id j,
          ==_iff event.run_id j,
          ==_iff run.run_id event.run_id,
          ==_refl run.run_id,
          v.counted j y,
        ));
  numbered = λ j.
      IsNumbered-appended j event (insert run.run_id [] c.events)
        (IsNumbered-cleared run.run_id c v) (rw r q);
}

granted-Sound :
    (lease : RunExecutionLease) (current : RunView) (c : Core)
    → lookup lease.run_id c.runs ≡ some current
    → is_executable current.lifecycle_state ≡ true
    → Sound c
    → Sound (record c {
      execution_leases = insert lease.run_id lease c.execution_leases;
      execution_attempts = insert lease.run_id lease.attempt c.execution_attempts;
    })
granted-Sound lease current c h x v = record {
  latest = λ j l. simp lookup-insert (ground (arith, ==_iff lease.run_id j, v.latest j l));
  executable = λ j l. simp lookup-insert (ground (arith, ==_iff lease.run_id j, v.executable j l));
  keyed = v.keyed;
  counted = v.counted;
  numbered = v.numbered;
}

renewed-Sound :
    (lease active : RunExecutionLease) (c : Core)
    → lookup lease.run_id c.execution_leases ≡ some active
    → lease.attempt ≡ active.attempt
    → Sound c
    → Sound (record c { execution_leases = insert lease.run_id lease c.execution_leases })
renewed-Sound lease active c h same v = record {
  latest = λ j l.
      simp lookup-insert
        (ground (arith, ==_iff lease.run_id j, v.latest j l, v.latest lease.run_id active));
  executable = λ j l.
      simp lookup-insert
        (ground (arith, ==_iff lease.run_id j, v.executable j l, v.executable lease.run_id active));
  keyed = v.keyed;
  counted = v.counted;
  numbered = v.numbered;
}

dropped-Sound :
    (id : String) (c : Core)
    → Sound c
    → Sound (record c { execution_leases = remove id c.execution_leases })
dropped-Sound id c v = record {
  latest = λ j l. simp lookup-remove (ground (arith, v.latest j l));
  executable = λ j l. simp lookup-remove (ground (arith, v.executable j l));
  keyed = v.keyed;
  counted = v.counted;
  numbered = v.numbered;
}

pub Step-Sound : (made : Option String) (s t : Core) → Step made s t → Sound s → Sound t
Step-Sound made s t (stay e) v = rw e v
Step-Sound made s t (accepted run event one x m r q p) v =
    rw p (accepted-Sound run event s one x r q v)
Step-Sound made s t (changed id current updated event h k n r q p) v =
    let key = v.keyed id current h in
    rw p (
      changed-Sound id current updated event s h (k ∙ key) n (r ∙ k ∙ key)
        (subst (λ i. event.seq ≡ length (events_at i s) + 1) (k ∙ key) q) v)
Step-Sound made s t (granted lease current h x a p) v = rw p (granted-Sound lease current s h x v)
Step-Sound made s t (renewed lease active h same p) v = rw p (renewed-Sound lease active s h same v)
Step-Sound made s t (dropped id p) v = rw p (dropped-Sound id s v)

pub init-Sound : Sound (core init)
unfolding lookup
init-Sound = record {
  latest = λ id l e. cc;
  executable = λ id l e. cc;
  keyed = λ id r e. cc;
  counted = λ id r e. cc;
  numbered = λ id. tt;
}

-- Every history of calls, whoever makes them and whether they raise or not, keeps this of the runs
-- from a state of which it holds, such as the empty store: a held execution lease carries the latest
-- attempt number of its run, which is queued or running; a run stands under its own identifier; its
-- control version is the number of its events; and the events of a run belong to it and are numbered
-- 1, 2, 3 and so on without a gap.
pub run-Sound :
    (iso_date : String → Option String) (models : Models) (s : Store)
    (calls : List (Principal × Call))
    → Sound (core s)
    → Sound (core (run iso_date models s calls))
run-Sound iso_date models s calls = run_induction iso_date models Sound Step-Sound s calls
