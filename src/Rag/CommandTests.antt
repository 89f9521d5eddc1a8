-- ===== src/Rag/CommandTests.antt =====
-- Commands on documents (agent/travel_agent/rag/memory.py) on small inputs.
use route_pilot.Common.{List, String, true, false, none, some, [], ◌∷◌, ◌≡◌, refl}
use route_pilot.Common.Eq.{text_equality, pair_beq}
use route_pilot.Common.Dict.{lookup, remove}
use route_pilot.Common.Exec.{ok}
use route_pilot.Common.Text.{decimal}
use route_pilot.Rag.Knowledge.{
  Context, Document, StatusCommand, StatusResult, Repository, VisibilityScope, IngestionStatus,
  change_document_status, get_document, list_documents, moved, scope_key, same_status,
  document_visible,
}
use route_pilot.Rag.Versions.{Attempted, run_attempts, status_changed_once}
use route_pilot.Rag.Commands.{other_document_answered, hidden_document_kept}

abbrev admin : Context
admin = record { tenant_id = "t"; roles = "tenant_admin" ∷ [] }

abbrev document : String → String → Document
document id tenant_id = record {
  document_id = id;
  tenant_id = some tenant_id;
  visibility_scope = VisibilityScope.tenant;
  status = IngestionStatus.published;
  quarantine_reason = none;
  version = 1;
  updated_at = 0;
}

abbrev quarantine : StatusCommand
quarantine = record {
  target_status = IngestionStatus.quarantined;
  expected_version = 1;
  reason = some "wrong";
}

abbrev hash : StatusCommand → String
hash c = decimal c.expected_version

abbrev start : Repository
start = record {
  documents = ("b", document "b" "t") ∷ ("a", document "a" "t") ∷ ("x", document "x" "u") ∷ [];
  chunks = ("c1", "a") ∷ ("c2", "b") ∷ [];
  status_idempotency = [];
}

abbrev done : StatusResult
done = record {
  document = record { document = moved quarantine 7 (document "a" "t"); chunk_count = 1 };
  idempotent_replay = false;
}

abbrev after : Repository
after = record start {
  documents =
      ("b", document "b" "t")
      ∷ ("a", moved quarantine 7 (document "a" "t"))
      ∷ ("x", document "x" "u")
      ∷ [];
  status_idempotency = (("t", "command-1"), ("1", done)) ∷ [];
}

quarantined :
    change_document_status hash admin "a" quarantine "command-1" 9 7 start ≡ (ok done, after)
unfolding change_document_status decimal
quarantined = refl

-- A page of one: the document of the other tenant is not in it.
first_page :
    (list_documents admin none 1 none start).0
    ≡ ok (record {
      items = record { document = document "a" "t"; chunk_count = 1 } ∷ [];
      next_cursor = some "a";
    })
unfolding list_documents
first_page = refl

-- The document goes back to its first status in between.
abbrev restore : StatusCommand
restore = record { target_status = IngestionStatus.published; expected_version = 2; reason = none }

abbrev restored : List (Attempted hash)
restored =
    record {
      context = admin;
      document_id = "a";
      command = restore;
      key = "command-2";
      size = 9;
      now = 8;
    }
    ∷ []

abbrev replay : StatusResult
replay = record done { idempotent_replay = true }

status_changed_once_example :
    (true ≡ true) × (run_attempts hash restored after ≡ run_attempts hash restored after)
unfolding lookup same_status pair_beq scope_key change_document_status decimal
status_changed_once_example =
    status_changed_once hash admin admin "a" quarantine quarantine "command-1" "command-1" 9 9 7 9
      start after done replay (run_attempts hash restored after) (document "a" "t") restored
      quarantined refl refl refl refl refl

other_document_answered_example :
    change_document_status hash admin "b" quarantine "command-1" 9 9 after
    ≡ (ok (record done { idempotent_replay = true }), after)
unfolding lookup document_visible
other_document_answered_example =
    other_document_answered hash admin "a" "b" quarantine "command-1" 9 7 9 start after done
      (document "a" "t") (document "b" "t") quarantined refl refl refl refl refl

hidden_document_kept_example :
    (lookup "x" after.documents ≡ some (document "x" "u"))
    × ((get_document admin "x" after).0
        ≡ (get_document admin "x" (record after { documents = remove "x" after.documents })).0)
unfolding lookup document_visible
hidden_document_kept_example =
    hidden_document_kept hash admin "a" quarantine "command-1" 9 7 start after (ok done) "x"
      (document "x" "u") refl refl quarantined
