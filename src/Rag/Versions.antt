-- ===== src/Rag/Versions.antt =====
-- The versions of documents (agent/travel_agent/rag/memory.py) under any sequence of commands.
use mathlib.Core.Option.{some-injective}
use route_pilot.Common.{
  List, [], ◌∷◌, ◌≤◌, ◌+◌, subst, refl, ℕ, String, true, false, some, ◌≡◌, inl, inr, sym, ◌∙◌,
  arith, Bool-cases, ap,
}
use route_pilot.Common.Eq.{◌==◌, text_equality, pair_eq, ==_iff, ==_refl}
use route_pilot.Common.Dict.{lookup, lookup-insert}
use route_pilot.Common.Exec.{Result, ok, err}
use route_pilot.Rag.Knowledge.{
  Context, Document, StatusCommand, StatusResult, Repository, KnowledgeError, moved, updated,
  write_document, same_status, change_document_status,
}
use route_pilot.Rag.Applied.{
  change_document_status-inv, found_lookup, raised_unchanged, find-visible,
}

module _ (hash : StatusCommand → String) where
  lookup-moved :
      (id : String) (command : StatusCommand) (now : ℕ) (d : Document) (s : Repository)
      → same_status d.status command.target_status ≡ false
      → lookup id (write_document id command d (updated command now d) s).documents
        ≡ some (moved command now d)
  unfolding updated write_document
  lookup-moved id command now d s differs =
      ground (arith, lookup-insert id id (moved command now d) s.documents, ==_refl id)

  -- One call, by whoever makes it.
  pub record Attempted : Type 0 where
    pub context : Context
    pub document_id : String
    pub command : StatusCommand
    pub key : String
    pub size : ℕ
    pub now : ℕ

  abbrev pub after_attempt : Attempted → Repository → Repository
  after_attempt x s =
      (change_document_status hash x.context x.document_id x.command x.key x.size x.now s).1

  -- The repository after the calls, those that raise among them.
  abbrev pub run_attempts : List Attempted → Repository → Repository
  run_attempts [] s = s
  run_attempts (x ∷ xs) s = run_attempts xs (after_attempt x s)

  -- The document is there, in a version of at least `n`.
  abbrev pub HasReached : String → ℕ → Repository → Type 0
  HasReached id n s = (d : Document) × (lookup id s.documents ≡ some d) × (n ≤ d.version)

  updated-version :
      (command : StatusCommand) (now : ℕ) (d : Document)
      → d.version ≤ (updated command now d).version
  unfolding updated moved
  updated-version command now d = ground arith

  write-HasReached :
      (id at : String) (n : ℕ) (command : StatusCommand) (now : ℕ) (old : Document) (s : Repository)
      → lookup at s.documents ≡ some old
      → HasReached id n s
      → HasReached id n (write_document at command old (updated command now old) s)
  unfolding write_document
  write-HasReached id at n command now old s found (d, there, le) =
      let new = updated command now old in
      elim (Bool-cases (same_status old.status command.target_status)) [
        | inl w ↦ rw w (d, there, le)
        | inr w ↦ elim (Bool-cases (at == id)) [
          | inr e ↦ rw w (d, rw (lookup-insert at id new s.documents, e) there, le)
          | inl e ↦
              let same : old ≡ d =
                some-injective _ _
                  (sym found ∙ (ap (λ z. lookup z s.documents) ((==_iff at id).0 e) ∙ there)) in
              rw w (
                new,
                rw (lookup-insert at id new s.documents, e) refl,
                omega (
                  arith,
                  le,
                  updated-version command now old,
                  ap (λ (z : Document). z.version) same,
                ),
              )
        ]
      ]

  attempt-HasReached :
      (x : Attempted) (id : String) (n : ℕ) (s : Repository)
      → HasReached id n s
      → HasReached id n (after_attempt x s)
  attempt-HasReached x id n s h =
      let r = change_document_status hash x.context x.document_id x.command x.key x.size x.now s in
      settled r.0 r.1 refl
    where
      settled :
          (r : Result KnowledgeError StatusResult) (t : Repository)
          → change_document_status hash x.context x.document_id x.command x.key x.size x.now s
            ≡ (r, t)
          → HasReached id n t
      settled (err e) t eq =
          subst (HasReached id n)
            (sym
              (raised_unchanged hash x.context x.document_id x.command x.key x.size x.now s t e eq))
            h
      settled (ok r) t eq =
          elim (change_document_status-inv hash x.context x.document_id x.command x.key x.size x.now
            s t r eq) [
              | inr y ↦ subst (HasReached id n) (sym y.unchanged) h
              | inl y ↦
                  let (found, _) = find-visible x.context x.document_id s y.document y.found in
                  let (d, there, le) =
                    write-HasReached id x.document_id n x.command x.now y.document s found h in
                  (d, ap (lookup id) y.documents ∙ there, le)
            ]

  run-HasReached :
      (xs : List Attempted) (id : String) (n : ℕ) (s : Repository)
      → HasReached id n s
      → HasReached id n (run_attempts xs s)
  run-HasReached [] id n s h = h
  run-HasReached (x ∷ xs) id n s h =
      run-HasReached xs id n (after_attempt x s) (attempt-HasReached x id n s h)

  -- Once a command has changed the status of a document, and whatever commands follow, no command
  -- on the version that it expected is applied: one that succeeds is the replay of an answer and
  -- changes nothing.
  pub status_changed_once :
      (c c' : Context) (id : String) (command command' : StatusCommand) (key key' : String)
      (size size' now now' : ℕ) (s t : Repository) (r r' : StatusResult) (u : Repository)
      (d : Document) (xs : List Attempted)
      → change_document_status hash c id command key size now s ≡ (ok r, t)
      → r.idempotent_replay ≡ false
      → lookup id s.documents ≡ some d
      → same_status d.status command.target_status ≡ false
      → command'.expected_version ≡ command.expected_version
      → change_document_status hash c' id command' key' size' now' (run_attempts xs t) ≡ (ok r', u)
      → (r'.idempotent_replay ≡ true) × (u ≡ run_attempts xs t)
  unfolding moved
  status_changed_once c c' id command command' key key' size size' now now' s t r r' u d xs h new at
        differs same h' =
      elim (change_document_status-inv hash c id command key size now s t r h) [
        | inr x ↦ absurd (ground (arith, x.answer))
        | inl x ↦
            let is_d = found_lookup c id s d x.document x.found at in
            let there : lookup id t.documents ≡ some (moved command now d) =
              ap (lookup id) x.documents
              ∙ (ap
                    (λ z.
                      lookup id (write_document id command z (updated command now z) s).documents)
                    is_d
                  ∙ lookup-moved id command now d s differs) in
            let version : d.version ≡ command.expected_version =
              ap (λ (z : Document). z.version) (sym is_d) ∙ x.version in
            let (e, held, reached) =
              run-HasReached xs id (d.version + 1) t (moved command now d, there, omega arith) in
            elim (change_document_status-inv hash c' id command' key' size' now' (run_attempts xs t)
              u r' h') [
                | inl y ↦
                    let is_e = found_lookup c' id (run_attempts xs t) e y.document y.found held in
                    absurd (
                      omega (
                        arith,
                        ap (λ (z : Document). z.version) is_e,
                        y.version,
                        same,
                        version,
                        reached,
                      ))
                | inr y ↦ (ap (λ (z : StatusResult). z.idempotent_replay) y.answer, y.unchanged)
              ]
      ]
