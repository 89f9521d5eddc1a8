-- ===== src/Platform/Store/Progress.antt =====
-- What only grows over a history of InMemoryPlatformStore: attempt numbers, and the control version
-- of a run.
use mathlib.Core.Option.{get_or}
use route_pilot.Common.{ℕ, ◌≤◌, String, ◌≢◌, Option, none, some, List, [], ◌∷◌, arith, All}
use route_pilot.Common.Eq.{==_iff, text_equality}
use route_pilot.Common.Dict.{lookup, lookup-insert}
use route_pilot.Platform.Contracts.{Models}
use route_pilot.Platform.Models.{Principal, RunView}
use route_pilot.Platform.Store.State.{Store}
use route_pilot.Platform.Store.History.{
  Call, made_by, run, after_call, after_call-Step, run_induction,
}
use route_pilot.Platform.Store.Core.Quiet.{Core, core}
use route_pilot.Platform.Store.Core.Steps.{
  Step, stay, accepted, changed, granted, renewed, dropped, changed_core, accepted_core,
}

abbrev pub attempts_at : String → Core → ℕ
attempts_at id c = get_or (lookup id c.execution_attempts) 0

-- 0 where there is no run.
abbrev pub version_of : Option RunView → ℕ
version_of none = 0
version_of (some r) = r.control_version

abbrev pub version_at : String → Core → ℕ
version_at id c = version_of (lookup id c.runs)

-- No call of the history creates a run under this identifier.
abbrev pub Avoids : String → List (Principal × Call) → Type 0
Avoids id calls = All (λ call. made_by call.1 ≢ some id) calls

module _ (id : String) where
  attempts-Step-le :
      (made : Option String) (s t : Core) → Step made s t → attempts_at id s ≤ attempts_at id t
  unfolding changed_core accepted_core
  attempts-Step-le made s t (stay e) = rw e (omega arith)
  attempts-Step-le made s t (accepted run event one x m r q p) = rw p (omega arith)
  attempts-Step-le made s t (changed i current updated event h k n r q p) = rw p (omega arith)
  attempts-Step-le made s t (granted lease current h x a p) =
      rw p (simp lookup-insert (ground (arith, ==_iff lease.run_id id)))
  attempts-Step-le made s t (renewed lease active h same p) = rw p (omega arith)
  attempts-Step-le made s t (dropped i p) = rw p (omega arith)

  version-Step-le :
      (made : Option String) (s t : Core)
      → Step made s t
      → made ≢ some id
      → version_at id s ≤ version_at id t
  unfolding changed_core accepted_core
  version-Step-le made s t (stay e) other = rw e (omega arith)
  version-Step-le made s t (accepted run event one x m r q p) other =
      rw p (simp lookup-insert (ground (arith, ==_iff run.run_id id)))
  version-Step-le made s t (changed i current updated event h k n r q p) other =
      rw p (simp lookup-insert (ground (arith, ==_iff i id)))
  version-Step-le made s t (granted lease current h x a p) other = rw p (omega arith)
  version-Step-le made s t (renewed lease active h same p) other = rw p (omega arith)
  version-Step-le made s t (dropped i p) other = rw p (omega arith)

  module _ (iso_date : String → Option String) (models : Models) where
    -- Attempt numbers never fall.
    pub attempts-run-le :
        (n : ℕ) (s : Store) (calls : List (Principal × Call))
        → n ≤ attempts_at id (core s)
        → n ≤ attempts_at id (core (run iso_date models s calls))
    attempts-run-le n =
        run_induction iso_date models (λ c. n ≤ attempts_at id c)
          (λ made s t st h. omega (arith, attempts-Step-le made s t st))

    -- Control versions never fall, while no new run takes the identifier.
    pub version-run-le :
        (n : ℕ) (s : Store) (calls : List (Principal × Call))
        → Avoids id calls
        → n ≤ version_at id (core s)
        → n ≤ version_at id (core (run iso_date models s calls))
    unfolding run
    version-run-le n s [] a h = h
    version-run-le n s ((p, c) ∷ calls) a h =
        version-run-le n (after_call iso_date models p c s) calls a.1 (
          omega (
            arith,
            version-Step-le (made_by c) (core s) (core (after_call iso_date models p c s))
                (after_call-Step iso_date models p c s) a.0,
          ))
