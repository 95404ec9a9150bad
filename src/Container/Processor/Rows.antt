-- ===== src/Container/Processor/Rows.antt =====
-- What one event does to the table: at most the row that it found is rewritten, into `new_row`.
use agynio.Prelude.{
  Option-cases, refl, ℕ, String, ◌≡◌, sym, ◌≢◌, inl, inr, Bool, true, false, not, ◌&&◌, some, [],
  ◌∷◌, arith, ◌==◌, find, All, Bool-cases,
}
use mathlib.Core.Path.{subst}
use agynio.Container.{EventType, Row, Table, update_where}
use agynio.Container.Reason.{Reason}
use agynio.Container.Processor.{
  docker_id, handle_event, is_foreign, resolve_event_type, handle, handle_known, handle_missing,
  DockerEvent, State, Faults, find_first, event_timestamp_ms, is_stale, new_row, has_update,
  apply_event,
}

-- The primary key `id` is unique.
abbrev pub Distinct : Table → Type 0
Distinct [] = Unit
Distinct (r ∷ rows) = All (λ (r' : Row). r'.id ≢ r.id) rows × Distinct rows

-- The same rows in the same order, each related to what it has become.
abbrev pub Pointwise : (Row → Row → Type 0) → Table → Table → Type 0
Pointwise R [] [] = Unit
Pointwise R [] (r' ∷ rows') = ⊥
Pointwise R (r ∷ rows) [] = ⊥
Pointwise R (r ∷ rows) (r' ∷ rows') = R r r' × Pointwise R rows rows'

module _ (R : Row → Row → Type 0) (same : (r : Row) → R r r) where
  pub Pointwise-refl : (rows : Table) → Pointwise R rows rows
  Pointwise-refl [] = tt
  Pointwise-refl (r ∷ rows) = (same r, Pointwise-refl rows)

  untouched :
      (id now : ℕ) (f : Row → Row) (rows : Table)
      → All (λ (r' : Row). r'.id ≢ id) rows
      → Pointwise R rows (update_where (λ (r : Row). r.id == id) now f rows)
  unfolding update_where
  untouched id now f [] h = tt
  untouched id now f (r ∷ rows) h = elim (Bool-cases (r.id == id)) [
    | inl e ↦ absurd (h.0 (ground arith))
    | inr e ↦ rw e (same r, untouched id now f rows h.1)
  ]

  other_id :
      (p : Row → Bool) (id : ℕ) (rows : Table) (row : Row)
      → All (λ (r' : Row). r'.id ≢ id) rows
      → find p rows ≡ some row
      → row.id ≢ id
  other_id p id [] row h e = cc
  other_id p id (r ∷ rows) row h e = elim (Bool-cases (p r)) [
    | inl hit ↦ let at : r ≡ row = ground arith in rw (← at) (h.0)
    | inr miss ↦ other_id p id rows row h.1 (ground arith)
  ]

  -- The row that a query found is the one that an update by its id rewrites.
  pub update_found :
      (p : Row → Bool) (now : ℕ) (f : Row → Row) (rows : Table) (row : Row)
      → Distinct rows
      → find p rows ≡ some row
      → R row (record (f row) { updated_at = now })
      → Pointwise R rows (update_where (λ (r : Row). r.id == row.id) now f rows)
  unfolding update_where
  update_found p now f [] row d e h = cc
  update_found p now f (r ∷ rows) row d e h = elim (Bool-cases (p r)) [
    | inl hit ↦
        let at : row ≡ r = ground arith in
        let self : (r.id == r.id) ≡ true = ground arith in
        subst
          (λ (x : Row).
            R x (record (f x) { updated_at = now })
            → Pointwise R (r ∷ rows) (update_where (λ (r : Row). r.id == x.id) now f (r ∷ rows)))
          (sym at) (λ h'. rw self (h', untouched r.id now f rows d.0)) h
    | inr miss ↦
        let later : find p rows ≡ some row = ground arith in
        let ne : (r.id == row.id) ≡ false = ground (arith, other_id p r.id rows row d.0 later) in
        rw ne (same r, update_found p now f rows row d.1 later h)
  ]

module _ (validate_uuid : String → Bool) (R : Row → Row → Type 0) (same : (r : Row) → R r r) where
  -- To relate the table before and after an event, relate a row that the event finds and that is not
  -- stale with its new version.
  module _ (e : DockerEvent) (now : ℕ) (faults : Faults) (s : State)
      (distinct : Distinct s.table) where
    apply_event-Pointwise :
        (t : EventType) (d : String) (reason : Reason) (row : Row) (s' : State)
        → s'.table ≡ s.table
        → find_first d s.table ≡ some row
        → (is_stale row (event_timestamp_ms e now) ≡ false
            → R row (record (new_row validate_uuid e t d (event_timestamp_ms e now) reason row) {
              updated_at = now;
            }))
        → Pointwise R s.table
            (apply_event validate_uuid e t d
              (event_timestamp_ms e now)
              now
              faults
              reason
              row
              s').table
    unfolding apply_event
    apply_event-Pointwise t d reason row s' same_table found new =
        elim (Bool-cases (is_stale row time)) [
          | inl stale ↦ rw (stale, same_table) (Pointwise-refl R same s.table)
          | inr fresh ↦
              elim (Bool-cases
                (has_update validate_uuid e t d time reason row && not faults.update_fails)) [
                  | inl yes_update ↦
                      rw (fresh, yes_update, same_table)
                        (update_found R same _ now (λ r. new_row validate_uuid e t d time reason r)
                          s.table row distinct found (new fresh))
                  | inr no_update ↦
                      rw (fresh, no_update, same_table) (Pointwise-refl R same s.table)
                ]
        ]
      where
        time : ℕ
        time = event_timestamp_ms e now

    handle_known-Pointwise :
        (t : EventType) (d : String) (row : Row)
        → find_first d s.table ≡ some row
        → ((reason : Reason)
            → is_stale row (event_timestamp_ms e now) ≡ false
            → R row (record (new_row validate_uuid e t d (event_timestamp_ms e now) reason row) {
              updated_at = now;
            }))
        → Pointwise R s.table
            (handle_known validate_uuid e t d (event_timestamp_ms e now) now faults row s).table
    unfolding handle_known
    handle_known-Pointwise t d row found new = elim (Bool-cases faults.create_fails) [
      | inl lost ↦ simp lost (Pointwise-refl R same s.table)
      | inr stored ↦ simp stored (apply_event-Pointwise t d _ row _ refl found (new _))
    ]

    table-handle_missing :
        (t : EventType) (d : String) (time : ℕ) → (handle_missing t d time now s).table ≡ s.table
    unfolding handle_missing
    table-handle_missing t d time = refl

    handle_event-Pointwise :
        (t : EventType) (d : String)
        → ((reason : Reason) (row : Row)
            → is_stale row (event_timestamp_ms e now) ≡ false
            → R row (record (new_row validate_uuid e t d (event_timestamp_ms e now) reason row) {
              updated_at = now;
            }))
        → Pointwise R s.table (handle_event validate_uuid e t d now faults s).table
    unfolding handle_event
    handle_event-Pointwise t d new = elim (Bool-cases faults.find_fails) [
      | inl lost ↦ simp lost (Pointwise-refl R same s.table)
      | inr read ↦ elim (Option-cases (find_first d s.table)) [
        | inl absent ↦
            simp (read, absent, table-handle_missing t d (event_timestamp_ms e now))
              (Pointwise-refl R same s.table)
        | inr (row, found) ↦
            simp (read, found) (handle_known-Pointwise t d row found (λ reason. new reason row))
      ]
    ]

    -- Whatever the event does to the table, each row keeps `R` to what it was, if a row that is found
    -- by an event that is not stale keeps `R` to its new version.
    pub handle-Pointwise :
        ((t : EventType) (d : String) (reason : Reason) (row : Row)
          → resolve_event_type e ≡ some t
          → is_stale row (event_timestamp_ms e now) ≡ false
          → R row (record (new_row validate_uuid e t d (event_timestamp_ms e now) reason row) {
            updated_at = now;
          }))
        → Pointwise R s.table (handle validate_uuid e now faults s).table
    unfolding handle
    handle-Pointwise new = elim (Bool-cases (is_foreign e)) [
      | inl foreign ↦ rw foreign (Pointwise-refl R same s.table)
      | inr container ↦ elim (Option-cases (resolve_event_type e)) [
        | inl unknown ↦ rw (container, unknown) (Pointwise-refl R same s.table)
        | inr (t, known) ↦ elim (Option-cases (docker_id e)) [
          | inl missing ↦ rw (container, known, missing) (Pointwise-refl R same s.table)
          | inr (d, named) ↦
              rw (container, known, named)
                (handle_event-Pointwise t d (λ reason row. new t d reason row known))
        ]
      ]
    ]
