-- ===== src/Rag/Applied.antt =====
-- What change_document_status (agent/travel_agent/rag/memory.py) does when it answers, and when it
-- raises.
use mathlib.Core.Option.{some-injective}
use route_pilot.Common.{
  ℕ, String, true, false, Option, none, some, ◌≡◌, sym, ◌∙◌, ◌⊎◌, inl, inr, arith, eqb, Bool-cases,
  Option-cases,
}
use route_pilot.Common.Eq.{◌==◌, text_equality, pair_eq, ==_iff, ==_refl}
use route_pilot.Common.Dict.{lookup, lookup-insert}
use route_pilot.Common.Exec.{ok, err}
use route_pilot.Rag.Knowledge.{
  Context, Document, StatusCommand, StatusResult, Repository, KnowledgeError, document_visible,
  find_document, admin_view, updated, write_document, apply_command, answer_command,
  change_document_status, scope_key, replayed,
}

pub find-visible :
    (c : Context) (id : String) (s : Repository) (d : Document)
    → find_document c id s ≡ some d
    → (lookup id s.documents ≡ some d) × (document_visible c d ≡ true)
unfolding find_document
find-visible c id s d h = elim (Option-cases (lookup id s.documents)) [
  | inl n ↦ absurd (ground (arith, n))
  | inr (e, n) ↦ ground (arith, n)
]

pub write-other :
    (id other : String) (command : StatusCommand) (old new : Document) (s : Repository)
    → (id == other) ≡ false
    → lookup other (write_document id command old new s).documents ≡ lookup other s.documents
unfolding write_document
write-other id other command old new s h = ground (arith, lookup-insert id other new s.documents)

pub found_lookup :
    (c : Context) (id : String) (s : Repository) (d e : Document)
    → find_document c id s ≡ some e
    → lookup id s.documents ≡ some d
    → e ≡ d
found_lookup c id s d e f at =
    let (g, _) = find-visible c id s e f in some-injective _ _ (sym g ∙ at)

module _ (hash : StatusCommand → String) where
  -- What a command that was applied, and not replayed, has done.
  pub record Applied (c : Context) (id : String) (command : StatusCommand) (key : String) (now : ℕ)
      (s t : Repository) (r : StatusResult) : Type 0 where
    pub document : Document
    pub found : find_document c id s ≡ some document
    pub version : document.version ≡ command.expected_version
    pub documents :
        t.documents
        ≡ (write_document id command document (updated command now document) s).documents
    pub remembered :
        lookup (scope_key c.tenant_id document.visibility_scope, key) t.status_idempotency
        ≡ some (hash command, r)

  -- What a replay has done: nothing.
  pub record Repeated (c : Context) (id : String) (command : StatusCommand) (key : String)
      (s t : Repository) (r : StatusResult) : Type 0 where
    pub document : Document
    pub found : find_document c id s ≡ some document
    pub unchanged : t ≡ s
    pub held : StatusResult
    pub answer : r ≡ record held { idempotent_replay = true }
    pub remembered :
        lookup (scope_key c.tenant_id document.visibility_scope, key) t.status_idempotency
        ≡ some (hash command, held)

  apply-Applied :
      (c : Context) (id : String) (command : StatusCommand) (key : String) (now : ℕ) (d : Document)
      (s t : Repository) (r : StatusResult)
      → find_document c id s ≡ some d
      → apply_command hash id command now (scope_key c.tenant_id d.visibility_scope, key) d s
        ≡ (ok r, t)
      → Applied c id command key now s t r
  unfolding apply_command
  apply-Applied c id command key now d s t r f h =
      elim (Bool-cases (eqb d.version command.expected_version)) [
        | inr v ↦ absurd (ground (arith, v))
        | inl v ↦
            let at : String × String = (scope_key c.tenant_id d.visibility_scope, key) in
            let new = updated command now d in
            let written = write_document id command d new s in
            let result : StatusResult = record {
              document = admin_view new written;
              idempotent_replay = false;
            } in
            record {
              document = d;
              found = f;
              version = ground arith;
              documents = ground (arith, v);
              remembered = ground (
                arith,
                v,
                lookup-insert at at (hash command, result) written.status_idempotency,
                ==_refl at,
              );
            }
      ]

  pub change_document_status-inv :
      (c : Context) (id : String) (command : StatusCommand) (key : String) (size now : ℕ)
      (s t : Repository) (r : StatusResult)
      → change_document_status hash c id command key size now s ≡ (ok r, t)
      → Applied c id command key now s t r ⊎ Repeated c id command key s t r
  unfolding change_document_status answer_command replayed
  change_document_status-inv c id command key size now s t r h =
      elim (Option-cases (find_document c id s)) [
        | inl f ↦ absurd (ground (arith, f))
        | inr (d, f) ↦
            let at : String × String = (scope_key c.tenant_id d.visibility_scope, key) in
            elim (Option-cases (lookup at s.status_idempotency)) [
              | inl n ↦ inl (apply-Applied c id command key now d s t r f (ground (arith, f, n)))
              | inr ((held_hash, held), n) ↦ elim (Bool-cases (held_hash == hash command)) [
                | inr w ↦ absurd (ground (arith, f, n, w))
                | inl w ↦ inr (record {
                  document = d;
                  found = f;
                  unchanged = ground (arith, f, n, w);
                  held = held;
                  answer = ground (arith, f, n, w);
                  remembered = ground (arith, f, n, w, (==_iff held_hash (hash command)).0 w);
                })
              ]
            ]
      ]

  -- A command that raises has written nothing.
  answer-raised :
      (id : String) (command : StatusCommand) (now : ℕ) (at : String × String) (d : Document)
      (held : Option (String × StatusResult)) (s t : Repository) (e : KnowledgeError)
      → answer_command hash id command now at d held s ≡ (err e, t)
      → t ≡ s
  unfolding answer_command apply_command replayed
  answer-raised id command now at d none s t e h = ground arith
  answer-raised id command now at d (some (held_hash, held)) s t e h = ground arith

  pub raised_unchanged :
      (c : Context) (id : String) (command : StatusCommand) (key : String) (size now : ℕ)
      (s t : Repository) (e : KnowledgeError)
      → change_document_status hash c id command key size now s ≡ (err e, t)
      → t ≡ s
  unfolding change_document_status
  raised_unchanged c id command key size now s t e h = elim (Option-cases (find_document c id s)) [
    | inl f ↦ ground (arith, f)
    | inr (d, f) ↦
        let at : String × String = (scope_key c.tenant_id d.visibility_scope, key) in
        ground (arith, f, answer-raised id command now at d (lookup at s.status_idempotency) s t e)
  ]
