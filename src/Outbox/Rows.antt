-- ===== src/Outbox/Rows.antt =====
-- Rows of the outbox's table (backend/moyuan_web/v1/outbox.py): what updates and claims keep.
use route_pilot.Common.{
  ℕ, String, Bool, true, false, ◌&&◌, not, List, [], ◌∷◌, ◌≡◌, ◌≢◌, inl, inr, refl, ◌∙◌, ap, sym,
  subst, arith, if◌then◌else◌, keep, each, All, Bool-cases,
}
use route_pilot.Common.Eq.{text_equality}
use route_pilot.Common.Sets.{In, member, member_iff, Distinct}
use route_pilot.Common.Members.{All-In, In-All, keep-In, take-In}
use route_pilot.Common.Sort.{sorted, All-sorted}
use route_pilot.Outbox.Repository.{
  Row, Worker, row_ids, update, selected, is_due, created_before, batch_size,
}

-- An update writes a row's place, and leaves alone what its test refuses.
pub All-update :
    (P : Row → Type 0) (test : Row → Bool) (change : Row → Row) (rs : List Row)
    → ((r : Row) → P r → test r ≡ true → P (change r))
    → All P rs
    → All P (update test change rs)
unfolding update
All-update P test change [] f h = tt
All-update P test change (r ∷ rs) f h = elim (Bool-cases (test r)) [
  | inl t ↦ rw t (f r h.0 t, All-update P test change rs f h.1)
  | inr t ↦ rw t (h.0, All-update P test change rs f h.1)
]

pub update-ids :
    (test : Row → Bool) (change : Row → Row) (rs : List Row)
    → ((r : Row) → (change r).outbox_id ≡ r.outbox_id)
    → row_ids (update test change rs) ≡ row_ids rs
unfolding update each
update-ids test change [] f = refl
update-ids test change (r ∷ rs) f = elim (Bool-cases (test r)) [
  | inl t ↦ rw t (rw (f r) (ap (λ x. r.outbox_id ∷ x) (update-ids test change rs f)))
  | inr t ↦ rw t (ap (λ x. r.outbox_id ∷ x) (update-ids test change rs f))
]

pub In-update :
    (test : Row → Bool) (change : Row → Row) (r : Row) (rs : List Row)
    → In r rs
    → In (if test r then change r else r) (update test change rs)
unfolding update
In-update test change r [] i = absurd i
In-update test change r (x ∷ rs) (inl e) = inl (ap (λ z. if test z then change z else z) e)
In-update test change r (x ∷ rs) (inr i) = inr (In-update test change r rs i)

-- A row that the test refuses stays.
pub kept-update :
    (test : Row → Bool) (change : Row → Row) (r : Row) (rs : List Row)
    → In r rs
    → test r ≡ false
    → In r (update test change rs)
kept-update test change r rs i h =
    subst (λ z. In z (update test change rs)) (ap (λ b. if b then change r else r) h)
      (In-update test change r rs i)

pub changed-update :
    (test : Row → Bool) (change : Row → Row) (r : Row) (rs : List Row)
    → In r rs
    → test r ≡ true
    → In (change r) (update test change rs)
changed-update test change r rs i h =
    subst (λ z. In z (update test change rs)) (ap (λ b. if b then change r else r) h)
      (In-update test change r rs i)

pub In-ids : (r : Row) (rs : List Row) → In r rs → In r.outbox_id (row_ids rs)
unfolding each
In-ids r [] i = absurd i
In-ids r (x ∷ rs) (inl e) = inl (ap (λ z. z.outbox_id) e)
In-ids r (x ∷ rs) (inr i) = inr (In-ids r rs i)

ids-In :
    (id : String) (rs : List Row) → In id (row_ids rs) → (r : Row) × In r rs × (r.outbox_id ≡ id)
unfolding each
ids-In id [] i = absurd i
ids-In id (x ∷ rs) (inl e) = (x, inl refl, sym e)
ids-In id (x ∷ rs) (inr i) = let (r, j, e) = ids-In id rs i in (r, inr j, e)

-- An identifier names one row.
pub one_row :
    (q r : Row) (rs : List Row)
    → Distinct (row_ids rs)
    → In q rs
    → In r rs
    → q.outbox_id ≡ r.outbox_id
    → q ≡ r
unfolding each
one_row q r [] d i j e = absurd i
one_row q r (x ∷ rs) d (inl p) (inl p') e = p ∙ sym p'
one_row q r (x ∷ rs) d (inl p) (inr j) e = absurd (
    All-In (λ y. x.outbox_id ≢ y) r.outbox_id (row_ids rs) d.0 (In-ids r rs j)
      (ap (λ z. z.outbox_id) (sym p) ∙ e))
one_row q r (x ∷ rs) d (inr i) (inl p) e = absurd (
    All-In (λ y. x.outbox_id ≢ y) q.outbox_id (row_ids rs) d.0 (In-ids q rs i)
      (ap (λ z. z.outbox_id) (sym p) ∙ sym e))
one_row q r (x ∷ rs) d (inr i) (inr j) e = one_row q r rs d.1 i j e

module _ (w : Worker) (now : ℕ) (skipped : String → Bool) (limit : ℕ) (table : List Row) where
  abbrev pub wanted : Row → Bool
  wanted r = is_due w now r && not (skipped r.outbox_id)

  sorted-In :
      (r : Row)
      → In r (sorted created_before (keep wanted table))
      → In r table × (is_due w now r ≡ true)
  sorted-In r i =
      let all : All (λ z. In z table × (is_due w now z ≡ true))
          (sorted created_before (keep wanted table)) =
        All-sorted created_before (λ z. In z table × (is_due w now z ≡ true)) (keep wanted table)
          (In-All (λ z. In z table × (is_due w now z ≡ true)) (keep wanted table)
            (λ z j. let (k, h) = keep-In wanted z table j in (k, ground arith))) in
      All-In (λ z. In z table × (is_due w now z ≡ true)) r
        (sorted created_before (keep wanted table)) all i

  -- What a claim selects was in the table and due.
  pub selected-due :
      (r : Row) → In r (selected w now skipped limit table) → In r table × (is_due w now r ≡ true)
  unfolding selected
  selected-due r i =
      sorted-In r (take-In (batch_size limit) r (sorted created_before (keep wanted table)) i)

  abbrev pub claimed : Row → Bool
  claimed r = member r.outbox_id (row_ids (selected w now skipped limit table))

  -- Under unique identifiers, a row that is not due is not claimed.
  pub not_claimed :
      (r : Row) → Distinct (row_ids table) → In r table → is_due w now r ≡ false → claimed r ≡ false
  not_claimed r d i h = elim (Bool-cases (claimed r)) [
    | inr t ↦ t
    | inl t ↦
        let (q, j, e) =
          ids-In r.outbox_id (row_ids_source)
            ((member_iff r.outbox_id (row_ids row_ids_source)).0 t) in
        let (k, due) = selected-due q j in
        absurd (ground (arith, ap (is_due w now) (one_row q r table d k i e)))
  ]
    where
      row_ids_source : List Row
      row_ids_source = selected w now skipped limit table
