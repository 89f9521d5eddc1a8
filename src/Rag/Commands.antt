-- ===== src/Rag/Commands.antt =====
-- Commands on documents (agent/travel_agent/rag/memory.py): replays and tenants.
use route_pilot.Common.{
  ℕ, String, true, false, ◌&&◌, none, some, ◌≡◌, inl, inr, ◌∙◌, arith, leb, Bool-cases, ap,
}
use route_pilot.Common.Eq.{◌==◌, text_equality, pair_eq, ==_iff, ==_refl}
use route_pilot.Common.Dict.{lookup, remove, lookup-remove}
use route_pilot.Common.Exec.{Result, ok, err}
use route_pilot.Rag.Knowledge.{
  Context, Document, StatusCommand, StatusResult, Repository, KnowledgeError, VisibilityScope,
  can_manage_tenant, document_visible, find_document, updated, answer_command,
  change_document_status, get_document, scope_key, replayed, is_public,
}
use route_pilot.Rag.Applied.{
  change_document_status-inv, found_lookup, raised_unchanged, find-visible, write-other,
}

module _ (hash : StatusCommand → String) where
  change-other :
      (c : Context) (id : String) (command : StatusCommand) (key : String) (size now : ℕ)
      (s t : Repository) (r : StatusResult) (other : String) (d : Document)
      → lookup other s.documents ≡ some d
      → document_visible c d ≡ false
      → change_document_status hash c id command key size now s ≡ (ok r, t)
      → lookup other t.documents ≡ some d
  change-other c id command key size now s t r other d at hidden h =
      elim (change_document_status-inv hash c id command key size now s t r h) [
        | inr x ↦ ap (λ z. lookup other z.documents) x.unchanged ∙ at
        | inl x ↦
            let (found, seen) = find-visible c id s x.document x.found in
            elim (Bool-cases (id == other)) [
              | inl e ↦ absurd (ground (arith, (==_iff id other).0 e))
              | inr e ↦
                  ap (lookup other) x.documents
                  ∙ write-other id other command x.document (updated command now x.document) s e
                  ∙ at
            ]
      ]

  find-none :
      (c : Context) (id : String) (s : Repository) (d : Document)
      → lookup id s.documents ≡ some d
      → document_visible c d ≡ false
      → find_document c id s ≡ none
  unfolding find_document
  find-none c id s d at hidden = ground (arith, at, hidden)

  hidden_find :
      (c : Context) (id : String) (s : Repository) (d : Document)
      → lookup id s.documents ≡ some d
      → document_visible c d ≡ false
      → find_document c id s ≡ find_document c id (record s { documents = remove id s.documents })
  unfolding find_document
  hidden_find c id s d at hidden =
      ground (arith, at, hidden, lookup-remove id id s.documents, ==_refl id)

  -- Tenants are apart: a command of a caller who may not see a document leaves that document as it
  -- is, whatever the command names and answers, and the caller's reading of it is answered as if it
  -- were not there.
  pub hidden_document_kept :
      (c : Context) (id : String) (command : StatusCommand) (key : String) (size now : ℕ)
      (s t : Repository) (r : Result KnowledgeError StatusResult) (other : String) (d : Document)
      → lookup other s.documents ≡ some d
      → document_visible c d ≡ false
      → change_document_status hash c id command key size now s ≡ (r, t)
      → (lookup other t.documents ≡ some d)
        × ((get_document c other t).0
            ≡ (get_document c other (record t { documents = remove other t.documents })).0)
  unfolding get_document
  hidden_document_kept c id command key size now s t (ok r) other d at hidden h =
      let kept = change-other c id command key size now s t r other d at hidden h in
      (kept, ground (arith, hidden_find c other t d kept hidden, find-none c other t d kept hidden))
  hidden_document_kept c id command key size now s t (err e) other d at hidden h =
      let kept =
        ap (λ z. lookup other z.documents) (raised_unchanged hash c id command key size now s t e h)
        ∙ at in
      (kept, ground (arith, hidden_find c other t d kept hidden, find-none c other t d kept hidden))

  admitted :
      (c : Context) (id : String) (command : StatusCommand) (key : String) (size now : ℕ)
      (s t : Repository) (r : StatusResult)
      → change_document_status hash c id command key size now s ≡ (ok r, t)
      → (can_manage_tenant c ≡ true) × ((leb 8 size && leb size 200) ≡ true)
  unfolding change_document_status
  admitted c id command key size now s t r h = ground arith

  -- The answer to a command is given again for the same command and key on another document of the
  -- tenant: the caller gets the first document, and the one that it names is not changed.
  pub other_document_answered :
      (c : Context) (id other : String) (command : StatusCommand) (key : String)
      (size now later : ℕ) (s t : Repository) (r : StatusResult) (d e : Document)
      → change_document_status hash c id command key size now s ≡ (ok r, t)
      → lookup id s.documents ≡ some d
      → lookup other t.documents ≡ some e
      → document_visible c e ≡ true
      → d.visibility_scope ≡ VisibilityScope.tenant
      → e.visibility_scope ≡ VisibilityScope.tenant
      → change_document_status hash c other command key size later t
        ≡ (ok (record r { idempotent_replay = true }), t)
  unfolding change_document_status find_document answer_command replayed scope_key is_public
  other_document_answered c id other command key size now later s t r d e h at there seen mine its =
      let (manages, sized) = admitted c id command key size now s t r h in
      elim (change_document_status-inv hash c id command key size now s t r h) [
        | inl x ↦
            let scope =
              ap (λ (z : Document). z.visibility_scope)
                (found_lookup c id s d x.document x.found at) in
            ground (arith, manages, sized, scope, x.remembered, ==_refl (hash command))
        | inr x ↦
            let scope =
              ap (λ (z : Document). z.visibility_scope)
                (found_lookup c id s d x.document x.found at) in
            ground (arith, manages, sized, scope, x.remembered, x.answer, ==_refl (hash command))
      ]
