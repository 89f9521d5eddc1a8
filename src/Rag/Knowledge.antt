-- ===== src/Rag/Knowledge.antt =====
-- The management of documents in InMemoryKnowledgeRepository of agent/travel_agent/rag/memory.py, and
-- the models of models.py that it reads. A document's provenance, which no method here reads, is left
-- out; `hash` is the SHA-256 of a command's JSON text. A method runs under one lock.
use route_pilot.Common.{
  ℕ, String, Bool, true, false, ◌&&◌, ◌||◌, not, Option, none, some, List, [], ◌∷◌, ◌+◌, ltb, leb,
  eqb, if◌then◌else◌, keep, each, length,
}
use route_pilot.Common.Eq.{◌==◌, text_equality, pair_eq}
use route_pilot.Common.Dict.{Dict, lookup, insert, values}
use route_pilot.Common.Exec.{
  Exec, pure, raise, gets, modify, guard, require, with_state, ◌>>=◌, ◌>>◌,
}
use route_pilot.Common.Sets.{count, member}
use route_pilot.Common.Sort.{sorted}
use route_pilot.Common.Members.{take}
use route_pilot.Common.Text.{text_lt}

pub data VisibilityScope : Type 0 where
  public tenant : VisibilityScope

pub data IngestionStatus : Type 0 where
  published quarantined tombstoned : IngestionStatus

unfoldable pub is_public : VisibilityScope → Bool
is_public VisibilityScope.public = true
is_public VisibilityScope.tenant = false

unfoldable pub same_status : IngestionStatus → IngestionStatus → Bool
same_status published published = true
same_status quarantined quarantined = true
same_status tombstoned tombstoned = true
same_status _ _ = false

pub record Context : Type 0 where
  pub tenant_id : String
  pub roles : List String

unfoldable pub can_manage_tenant : Context → Bool
unfolding member
can_manage_tenant c = member "admin" c.roles || member "tenant_admin" c.roles

unfoldable pub can_manage_public : Context → Bool
unfolding member
can_manage_public c = member "admin" c.roles

pub record Document : Type 0 where
  pub document_id : String
  pub tenant_id : Option String
  pub visibility_scope : VisibilityScope
  pub status : IngestionStatus
  pub quarantine_reason : Option String
  pub version : ℕ
  pub updated_at : ℕ

pub record AdminView : Type 0 where
  pub document : Document
  pub chunk_count : ℕ

pub record Page : Type 0 where
  pub items : List AdminView
  pub next_cursor : Option String

pub record StatusCommand : Type 0 where
  pub target_status : IngestionStatus
  pub expected_version : ℕ
  pub reason : Option String

pub record StatusResult : Type 0 where
  pub document : AdminView
  pub idempotent_replay : Bool

-- The documents, the document of each chunk, and the answers by scope and key.
pub record Repository : Type 0 where
  pub documents : Dict String Document
  pub chunks : Dict String String
  pub status_idempotency : Dict (String × String) (String × StatusResult)

pub data KnowledgeError : Type 0 where
  not_authorized not_found conflict bad_limit bad_key : KnowledgeError
  version_conflict : ℕ → KnowledgeError

abbrev pub Method : Type 0 → Type 0
Method A = Exec Repository KnowledgeError A

unfoldable pub scope_key : String → VisibilityScope → String
scope_key id VisibilityScope.public = "__public__"
scope_key id VisibilityScope.tenant = id

unfoldable pub document_visible : Context → Document → Bool
unfolding is_public
document_visible c d =
    is_public d.visibility_scope || (elim d.tenant_id [ none ↦ false | some t ↦ t == c.tenant_id ])

unfoldable pub admin_view : Document → Repository → AdminView
unfolding count values
admin_view d s = record {
  document = d;
  chunk_count = count (λ id. id == d.document_id) (values s.chunks);
}

-- `self._documents.get(document_id)`, if the caller may see it.
unfoldable pub find_document : Context → String → Repository → Option Document
unfolding lookup document_visible
find_document c id s = elim (lookup id s.documents) [
  | none ↦ none
  | some d ↦ if document_visible c d then some d else none
]

unfoldable pub is_listed : Context → Option IngestionStatus → Option String → Document → Bool
unfolding document_visible same_status text_lt
is_listed c status cursor d =
    document_visible c d
    && ((elim status [ none ↦ true | some x ↦ same_status d.status x ])
        && (elim cursor [ none ↦ true | some at ↦ text_lt at d.document_id ]))

unfoldable pub last_id : List AdminView → Option String
last_id [] = none
last_id (v ∷ []) = some v.document.document_id
last_id (v ∷ w ∷ rest) = last_id (w ∷ rest)

unfoldable pub page_of : ℕ → List Document → Repository → Page
unfolding take each admin_view last_id
page_of limit visible s =
    let selected = take (limit + 1) visible in
    let items = each (λ d. admin_view d s) (take limit selected) in
    record {
      items = items;
      next_cursor = if ltb limit (length selected) then last_id items else none;
    }

unfoldable pub id_before : Document → Document → Bool
unfolding text_lt
id_before a b = text_lt a.document_id b.document_id

unfoldable pub list_documents : Context → Option IngestionStatus → ℕ → Option String → Method Page
unfolding can_manage_tenant page_of sorted id_before keep is_listed values
list_documents c status limit cursor = do
  guard (can_manage_tenant c) not_authorized
  guard (leb 1 limit && leb limit 100) bad_limit
  gets (λ s.
      page_of limit (keep (is_listed c status cursor) (sorted id_before (values s.documents))) s)

unfoldable pub get_document : Context → String → Method AdminView
unfolding can_manage_tenant find_document admin_view
get_document c id = do
  guard (can_manage_tenant c) not_authorized
  d ← with_state (λ s. require (find_document c id s) not_found)
  gets (admin_view d)

unfoldable pub moved : StatusCommand → ℕ → Document → Document
moved command now d = record d {
  status = command.target_status;
  quarantine_reason = elim command.target_status [ published ↦ none | _ ↦ command.reason ];
  version = d.version + 1;
  updated_at = now;
}

-- The document after the command, and whether it was written.
unfoldable pub updated : StatusCommand → ℕ → Document → Document
unfolding same_status moved
updated command now d =
    if same_status d.status command.target_status then d else moved command now d

unfoldable pub write_document :
    String → StatusCommand → Document → Document → Repository → Repository
unfolding same_status insert
write_document id command old new s =
    if same_status old.status command.target_status
    then s
    else record s { documents = insert id new s.documents }

unfoldable pub replayed : String → (String × StatusResult) → Method StatusResult
replayed request_hash (held, result) =
    if held == request_hash
    then pure (record result { idempotent_replay = true })
    else raise conflict

module _ (hash : StatusCommand → String) where
  abbrev answer : Document → Repository → StatusResult
  answer d s = record { document = admin_view d s; idempotent_replay = false }

  unfoldable pub apply_command :
      String → StatusCommand → ℕ → String × String → Document → Method StatusResult
  unfolding updated write_document admin_view insert
  apply_command id command now key d = do
    guard (eqb d.version command.expected_version) (version_conflict d.version)
    modify (write_document id command d (updated command now d))
    result ← gets (answer (updated command now d))
    modify (λ s. record s {
      status_idempotency = insert key (hash command, result) s.status_idempotency;
    })
    pure result

  -- `existing` is the answer that the key has got before.
  unfoldable pub answer_command :
      String
      → StatusCommand
      → ℕ
      → String × String
      → Document
      → Option (String × StatusResult)
      → Method StatusResult
  unfolding replayed apply_command
  answer_command id command now key d none = apply_command id command now key d
  answer_command id command now key d (some prior) = replayed (hash command) prior

  -- `size` is the length of the idempotency key.
  unfoldable pub change_document_status :
      Context → String → StatusCommand → String → ℕ → ℕ → Method StatusResult
  unfolding can_manage_tenant can_manage_public find_document is_public scope_key lookup
      answer_command
  change_document_status c id command key size now = do
    guard (can_manage_tenant c) not_authorized
    guard (leb 8 size && leb size 200) bad_key
    d ← with_state (λ s. require (find_document c id s) not_found)
    guard (not (is_public d.visibility_scope) || can_manage_public c) not_authorized
    let at : String × String = (scope_key c.tenant_id d.visibility_scope, key)
    held ← gets (λ s. lookup at s.status_idempotency)
    answer_command id command now at d held
