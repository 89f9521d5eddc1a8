-- ===== src/Platform/Store/Editing.antt =====
-- Successive versions of an artifact: `patch_artifact` (backend/moyuan_web/v1/store.py).
use mathlib.Core.Option.{some-injective}
use route_pilot.Common.{
  ℕ, ◌+◌, ◌<◌, ◌≤◌, String, ◌≡◌, ◌≢◌, inl, inr, refl, sym, ap, subst, ◌∙◌, true, none, some, List,
  [], ◌∷◌, ◌++◌, ◌&&◌, arith, if◌then◌else◌, Bool-cases, Option-cases, All, eqb, ltb,
}
use route_pilot.Common.Eq.{==_refl, text_equality}
use route_pilot.Common.Dict.{Dict, lookup-insert}
use route_pilot.Common.Json.{Json}
use route_pilot.Common.Exec.{ok, err}
use route_pilot.Common.Outcome.{Result-cases}
use route_pilot.Platform.Contracts.{Models, is_registered, validate_contract, contract_id}
use route_pilot.Platform.Models.{Principal, ArtifactView, ArtifactStatus, ArtifactPatchRequest}
use route_pilot.Platform.Store.State.{
  Store, version_conflict, trip_locked, artifact_locked, latest, latest_of, versions_of,
}
use route_pilot.Platform.Store.Artifacts.{
  has_header, patch_artifact, ensure_artifact_mutable, validate_artifact_patch_content,
  next_version, push_version,
}

-- The latest of a list that ends in a later version than all before it.
latest-appended :
    (best a : ArtifactView) (xs : List ArtifactView)
    → best.version < a.version
    → All (λ (x : ArtifactView). x.version < a.version) xs
    → latest best (xs ++ a ∷ []) ≡ a
unfolding latest
latest-appended best a [] h none_left = ground arith
latest-appended best a (x ∷ xs) h (g, rest) =
    latest-appended (if ltb best.version x.version then x else best) a xs (ground arith) rest

abbrev AtMost : ℕ → List ArtifactView → Type 0
AtMost n = All (λ (x : ArtifactView). x.version ≤ n)

latest-bounds :
    (best : ArtifactView) (xs : List ArtifactView)
    → (best.version ≤ (latest best xs).version) × AtMost (latest best xs).version xs
unfolding latest
latest-bounds best [] = (omega arith, tt)
latest-bounds best (x ∷ xs) =
    let (first, rest) = latest-bounds (if ltb best.version x.version then x else best) xs in
    (ground (arith, first), (ground (arith, first), rest))

below :
    (n : ℕ) (xs : List ArtifactView)
    → AtMost n xs
    → All (λ (x : ArtifactView). x.version < n + 1) xs
below n [] h = tt
below n (x ∷ xs) (h, rest) = (omega (arith, h), below n xs rest)

latest_of-appended :
    (current a : ArtifactView) (xs : List ArtifactView)
    → latest_of xs ≡ some current
    → a.version ≡ current.version + 1
    → latest_of (xs ++ a ∷ []) ≡ some a
unfolding latest_of
latest_of-appended current a [] h next = absurd (ground (arith, h))
latest_of-appended current a (x ∷ xs) h next =
    let (first, rest) = latest-bounds x xs in
    let same : (latest x xs).version + 1 ≡ a.version = ground (arith, h, next) in
    ap some (
      latest-appended x a xs (omega (arith, first, same)) (
        subst (λ n. All (λ (v : ArtifactView). v.version < n) xs) same
          (below (latest x xs).version xs rest)))

-- What a successful patch went through.
record Patched (m : Models) (p : Principal) (id : String) (r : ArtifactPatchRequest) (now : ℕ)
    (s : Store) (a : ArtifactView) (t : Store) : Type 0 where
  current : ArtifactView
  content : Dict String Json
  found : artifact_locked p id none true s ≡ ok current
  base : current.version ≡ r.base_version
  is_mutable : is_registered (contract_id current.artifact_type current.schema_version) ≡ true
  validated :
      validate_contract m (contract_id current.artifact_type current.schema_version) r.content
      ≡ some content
  result : a ≡ next_version current content now
  after : t ≡ push_version id a s

patch-inverted :
    (m : Models) (p : Principal) (id : String) (r : ArtifactPatchRequest) (now : ℕ) (s : Store)
    (a : ArtifactView) (t : Store)
    → patch_artifact m p id r now s ≡ (ok a, t)
    → Patched m p id r now s a t
unfolding patch_artifact ensure_artifact_mutable validate_artifact_patch_content
patch-inverted m p id r now s a t h = elim (Result-cases (artifact_locked p id none true s)) [
  | inr (e, g) ↦ absurd (ground arith)
  | inl (current, g) ↦
      elim (Bool-cases (is_registered (contract_id current.artifact_type current.schema_version))) [
        | inr w ↦ absurd (ground arith)
        | inl w ↦
            elim (Bool-cases (eqb current.version r.base_version && has_header current r.content)) [
              | inr v ↦ absurd (ground arith)
              | inl v ↦
                  elim (Option-cases (
                    validate_contract m (contract_id current.artifact_type current.schema_version)
                      r.content)) [
                        | inl e ↦ absurd (ground arith)
                        | inr (content, e) ↦ record {
                          current = current;
                          content = content;
                          found = g;
                          base = ground arith;
                          is_mutable = w;
                          validated = e;
                          result = ground arith;
                          after = ground arith;
                        }
                      ]
            ]
      ]
]

artifact_locked-latest :
    (p : Principal) (id : String) (s : Store) (current : ArtifactView)
    → artifact_locked p id none true s ≡ ok current
    → latest_of (versions_of id s) ≡ some current
unfolding artifact_locked
artifact_locked-latest p id s current h = ground arith

versions-pushed :
    (id : String) (a : ArtifactView) (s : Store)
    → versions_of id (push_version id a s) ≡ versions_of id s ++ a ∷ []
unfolding push_version
versions-pushed id a s = rw (lookup-insert, ==_refl id) refl

push_version-keeps :
    (id : String) (a : ArtifactView) (s : Store)
    → ((push_version id a s).trips ≡ s.trips) × ((push_version id a s).members ≡ s.members)
unfolding push_version
push_version-keeps id a s = (refl, refl)

-- A new version of an artifact is as accessible as the version before.
pushed-locked :
    (p : Principal) (id : String) (s : Store) (current a : ArtifactView)
    → artifact_locked p id none true s ≡ ok current
    → a.version ≡ current.version + 1
    → a.tenant_id ≡ current.tenant_id
    → a.trip_id ≡ current.trip_id
    → artifact_locked p id none true (push_version id a s) ≡ ok a
unfolding artifact_locked trip_locked
pushed-locked p id s current a h next tenant trip = ground (
  arith,
  h,
  versions-pushed id a s,
  latest_of-appended current a (versions_of id s) (artifact_locked-latest p id s current h) next,
  push_version-keeps id a s,
)

stale-patch :
    (m : Models) (p : Principal) (id : String) (again : ArtifactPatchRequest) (later : ℕ)
    (t : Store) (a : ArtifactView)
    → artifact_locked p id none true t ≡ ok a
    → is_registered (contract_id a.artifact_type a.schema_version) ≡ true
    → again.base_version + 1 ≡ a.version
    → patch_artifact m p id again later t ≡ (err (version_conflict a.version), t)
unfolding patch_artifact ensure_artifact_mutable
stale-patch m p id again later t a found is_mutable stale = ground arith

-- A successful patch of an artifact appends one version to those stored and changes none of them. The
-- new version follows the request's base version, which was the latest, and names it as its parent,
-- is a candidate, holds the validated content, and is the latest in the store that is left. In that
-- store another patch on the same base succeeds for no caller, and for this one it is refused with a
-- conflict that names the new version.
pub patch_artifact_chain :
    (m : Models) (p q : Principal) (id : String) (r again : ArtifactPatchRequest) (now later : ℕ)
    (s t : Store) (a : ArtifactView)
    → patch_artifact m p id r now s ≡ (ok a, t)
    → again.base_version ≡ r.base_version
    → (versions_of id t ≡ versions_of id s ++ a ∷ [])
      × (latest_of (versions_of id t) ≡ some a)
      × (a.version ≡ r.base_version + 1)
      × (a.parent_version ≡ some r.base_version)
      × (a.status ≡ ArtifactStatus.candidate)
      × (validate_contract m (contract_id a.artifact_type a.schema_version) r.content
          ≡ some a.content)
      × (patch_artifact m p id again later t ≡ (err (version_conflict a.version), t))
      × ((b : ArtifactView) (u : Store) → patch_artifact m q id again later t ≢ (ok b, u))
unfolding next_version
patch_artifact_chain m p q id r again now later s t a h same =
    let d = patch-inverted m p id r now s a t h in
    let next : a.version ≡ d.current.version + 1 = ap (λ (v : ArtifactView). v.version) d.result in
    let latest_version = artifact_locked-latest p id s d.current d.found in
    let locked =
      pushed-locked p id s d.current a d.found next
        (ap (λ (v : ArtifactView). v.tenant_id) d.result)
        (ap (λ (v : ArtifactView). v.trip_id) d.result) in
    let newest : latest_of (versions_of id t) ≡ some a =
      ap (λ u. latest_of (versions_of id u)) d.after
      ∙ (ap latest_of (versions-pushed id a s)
          ∙ latest_of-appended d.current a (versions_of id s) latest_version next) in
    (
      ap (versions_of id) d.after ∙ versions-pushed id a s,
      newest,
      next ∙ ap (λ n. n + 1) d.base,
      ap (λ (v : ArtifactView). v.parent_version) d.result ∙ ap some d.base,
      ap (λ (v : ArtifactView). v.status) d.result,
      ground (arith, d.validated, d.result),
      subst (λ u. patch_artifact m p id again later u ≡ (err (version_conflict a.version), u))
          (sym d.after)
          (stale-patch m p id again later (push_version id a s) a locked
            (ground (arith, d.is_mutable, d.result)) (ground (arith, next, d.base, same))),
      λ b u h'.
          let e = patch-inverted m q id again later t b u h' in
          let there = artifact_locked-latest q id t e.current e.found in
          let is_a = some-injective _ _ (sym there ∙ newest) in
          omega (arith, ap (λ (v : ArtifactView). v.version) is_a, e.base, next, d.base, same),
    )
