-- ===== src/Checkpoints/Statuses.antt =====
-- The captured statuses, looked up, and what their restoration does to a revision.
use n4x_core.Prelude.{
  String, Bool, true, false, ◌≡◌, refl, sym, ap, ◌∙◌, Option, none, some, List, [], ◌∷◌, ◌==◌,
  eq_iff, arith, Bool-cases, Option-cases, ◌⊎◌, inl, inr, if◌then◌else◌, All,
}
use n4x_core.Kernel.Jobs.{ApplicationRevision, RevisionStatus}
use n4x_core.Graph.Records
use n4x_core.Graph.Records.{
  RecordCollection, get_row, upsert_row, get-upsert_row, get-save, get-save-cases,
}
use n4x_core.Checkpoints.State.{revision_statuses}
use n4x_core.Checkpoints.Service.{with_status, restore_statuses}

-- No key has two rows.
abbrev pub IsDistinct : {V : Type 0} → List (String × V) → Type 0
IsDistinct [] = Unit
IsDistinct ((k, v) ∷ rows) = (get_row k rows ≡ none) × IsDistinct rows

upsert_row-IsDistinct :
    {V : Type 0} (k : String) (v : V) (rows : List (String × V))
    → IsDistinct rows
    → IsDistinct (upsert_row k v rows)
upsert_row-IsDistinct k v [] d = (refl, tt)
upsert_row-IsDistinct k v ((j, w) ∷ rows) d = elim (Bool-cases (j == k)) [
  | inl e ↦ rw e d
  | inr e ↦ rw e (
    ground (arith, eq_iff j k, eq_iff k j, get-upsert_row k j v rows, d.0),
    upsert_row-IsDistinct k v rows d.1,
  )
]

pub revision_statuses-IsDistinct :
    (application_id : String) (rows : List (String × ApplicationRevision))
    (statuses : List (String × RevisionStatus))
    → IsDistinct statuses
    → IsDistinct (revision_statuses application_id rows statuses)
unfolding revision_statuses
revision_statuses-IsDistinct application_id [] statuses d = d
revision_statuses-IsDistinct application_id ((j, v) ∷ rows) statuses d =
    revision_statuses-IsDistinct application_id rows _ (added (v.application_id == application_id))
  where
    added : (b : Bool) → IsDistinct (if b then upsert_row v.id v.status statuses else statuses)
    added true = upsert_row-IsDistinct v.id v.status statuses d
    added false = d

-- The status of a revision of the application, else what is there already.
abbrev pub status_or :
    String → Option ApplicationRevision → Option RevisionStatus → Option RevisionStatus
status_or application_id none o = o
status_or application_id (some v) o =
    if v.application_id == application_id then some v.status else o

get-revision_statuses :
    (application_id r : String) (rows : List (String × ApplicationRevision))
    (statuses : List (String × RevisionStatus))
    → IsDistinct rows
    → All (λ (row : String × ApplicationRevision). row.1.id ≡ row.0) rows
    → get_row r (revision_statuses application_id rows statuses)
      ≡ status_or application_id (get_row r rows) (get_row r statuses)
unfolding revision_statuses
get-revision_statuses application_id r [] statuses d k = refl
get-revision_statuses application_id r ((j, v) ∷ rows) statuses d k =
    get-revision_statuses application_id r rows _ d.1 k.1
    ∙ here (v.application_id == application_id) refl (Bool-cases (j == r))
  where
    here :
        (b : Bool)
        → (v.application_id == application_id) ≡ b
        → ((j == r) ≡ true) ⊎ ((j == r) ≡ false)
        → status_or application_id
            (get_row r rows)
            (get_row r (if b then upsert_row v.id v.status statuses else statuses))
          ≡ status_or application_id
              (if j == r then some v else get_row r rows)
              (get_row r statuses)
    here true e (inl i) =
        ground (arith, eq_iff j r, eq_iff v.id r, d.0, k.0, get-upsert_row v.id r v.status statuses)
    here false e (inl i) = ground (arith, eq_iff j r, d.0)
    here true e (inr i) =
        ground (arith, eq_iff j r, eq_iff v.id r, k.0, get-upsert_row v.id r v.status statuses)
    here false e (inr i) = rw i refl

pub get-captured :
    (application_id r : String) (c : RecordCollection ApplicationRevision)
    → IsDistinct c.rows
    → Records.IsKeyed (λ v. v.id) c
    → get_row r (revision_statuses application_id c.rows [])
      ≡ status_or application_id (Records.get c r) none
unfolding Records.get
get-captured application_id r c d k = get-revision_statuses application_id r c.rows [] d k

-- What becomes of a revision with a captured status, or with none.
abbrev pub restored :
    Option RevisionStatus → Option ApplicationRevision → Option ApplicationRevision
restored none o = o
restored (some status) none = none
restored (some status) (some w) = some (record w { status = status })

abbrev pub Keyed : RecordCollection ApplicationRevision → Type 0
Keyed c = (k : String) (v : ApplicationRevision) → Records.get c k ≡ some v → v.id ≡ k

with_status-Keyed :
    (status : RevisionStatus) (j : String) (c : RecordCollection ApplicationRevision)
    → Keyed c
    → Keyed (with_status status (Records.get c j) c)
with_status-Keyed status j c k r v h = by_row (Records.get c j) h
  where
    by_row :
        (o : Option ApplicationRevision)
        → Records.get (with_status status o c) r ≡ some v
        → v.id ≡ r
    by_row none p = k r v p
    by_row (some w) p = elim (get-save-cases c w.id r (record w { status = status }) p) [
      | inl (i, e) ↦ sym (ap (λ (u : ApplicationRevision). u.id) e) ∙ i
      | inr (ne, e) ↦ k r v e
    ]

get-with_status :
    (status : RevisionStatus) (j r : String) (c : RecordCollection ApplicationRevision)
    → Keyed c
    → Records.get (with_status status (Records.get c j) c) r
      ≡ (if j == r then restored (some status) (Records.get c r) else Records.get c r)
get-with_status status j r c k = elim (Option-cases (Records.get c j)) [
  | inl e ↦ ap (λ o. Records.get (with_status status o c) r) e ∙ absent (Bool-cases (j == r)) e
  | inr (w, e) ↦
      ap (λ o. Records.get (with_status status o c) r) e
      ∙ get-save c w.id r (record w { status = status })
      ∙ present w (Bool-cases (j == r)) e (k j w e)
]
  where
    absent :
        ((j == r) ≡ true) ⊎ ((j == r) ≡ false)
        → Records.get c j ≡ none
        → Records.get c r
          ≡ (if j == r then restored (some status) (Records.get c r) else Records.get c r)
    absent (inr i) e = rw i refl
    absent (inl i) e =
        let p = sym (ap (λ x. Records.get c x) ((eq_iff j r).0 i)) ∙ e in rw (i, p) refl

    present :
        (w : ApplicationRevision)
        → ((j == r) ≡ true) ⊎ ((j == r) ≡ false)
        → Records.get c j ≡ some w
        → w.id ≡ j
        → (if w.id == r then some (record w { status = status }) else Records.get c r)
          ≡ (if j == r then restored (some status) (Records.get c r) else Records.get c r)
    present w (inr i) e q = let h = ap (λ x. x == r) q ∙ i in rw (h, i) refl
    present w (inl i) e q =
        let p = sym (ap (λ x. Records.get c x) ((eq_iff j r).0 i)) ∙ e in
        let h = ap (λ x. x == r) q ∙ i in rw (h, i, p) refl

pub get-restore_statuses :
    (statuses : List (String × RevisionStatus)) (r : String)
    (c : RecordCollection ApplicationRevision)
    → IsDistinct statuses
    → Keyed c
    → Records.get (restore_statuses statuses c) r ≡ restored (get_row r statuses) (Records.get c r)
unfolding restore_statuses
get-restore_statuses [] r c d k = refl
get-restore_statuses ((j, status) ∷ statuses) r c d k =
    get-restore_statuses statuses r _ d.1 (with_status-Keyed status j c k)
    ∙ ap (λ o. restored (get_row r statuses) o) (get-with_status status j r c k)
    ∙ here (Bool-cases (j == r))
  where
    here :
        ((j == r) ≡ true) ⊎ ((j == r) ≡ false)
        → restored
            (get_row r statuses)
            (if j == r then restored (some status) (Records.get c r) else Records.get c r)
          ≡ restored (if j == r then some status else get_row r statuses) (Records.get c r)
    here (inr i) = rw i refl
    here (inl i) =
        let p = sym (ap (λ x. get_row x statuses) ((eq_iff j r).0 i)) ∙ d.0 in rw (i, p) refl
