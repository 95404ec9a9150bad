-- ===== src/Container/Processor/Monotone.antt =====
-- Docker events arrive late and out of order: what the processor stores only moves forward.
use agynio.Prelude.{ℕ, ◌≤◌, String, ◌≡◌, refl, ◌≢◌, ◌∙◌, false, List, [], ◌∷◌, arith, get_or, All}
use agynio.Container.{Bool, Row, Table, EventType}
use agynio.Container.Reason.{Reason}
use agynio.Container.Processor.{
  DockerEvent, State, Faults, event_timestamp_ms, is_stale, new_row, handle, handle_all,
}
use agynio.Container.Processor.Rows.{Distinct, Pointwise, Pointwise-refl, handle-Pointwise}

-- The time of the last event that the row took, 0 before any.
abbrev pub last_event : Row → ℕ
last_event r = get_or r.metadata.last_event_at 0

-- The same container, whose last event is no older.
pub record Advances (r r' : Row) : Type 0 where
  pub same_id : r'.id ≡ r.id
  pub same_container : r'.container_id ≡ r.container_id
  pub later : last_event r ≤ last_event r'

Advances-refl : (r : Row) → Advances r r
Advances-refl r = record { same_id = refl; same_container = refl; later = omega arith }

Advances-trans : (r r' r'' : Row) → Advances r r' → Advances r' r'' → Advances r r''
Advances-trans r r' r'' h k = record {
  same_id = k.same_id ∙ h.same_id;
  same_container = k.same_container ∙ h.same_container;
  later = omega arith;
}

Pointwise-trans :
    (rows rows' rows'' : Table)
    → Pointwise Advances rows rows'
    → Pointwise Advances rows' rows''
    → Pointwise Advances rows rows''
Pointwise-trans [] [] [] h k = tt
Pointwise-trans (r ∷ rows) (r' ∷ rows') (r'' ∷ rows'') h k =
    (Advances-trans r r' r'' h.0 k.0, Pointwise-trans rows rows' rows'' h.1 k.1)
Pointwise-trans [] [] (r'' ∷ rows'') h k = k
Pointwise-trans [] (r' ∷ rows') rows'' h k = absurd h
Pointwise-trans (r ∷ rows) [] rows'' h k = absurd h
Pointwise-trans (r ∷ rows) (r' ∷ rows') [] h k = absurd k

-- The ids stay distinct.
All-Advances :
    (id : ℕ) (rows rows' : Table)
    → Pointwise Advances rows rows'
    → All (λ (r : Row). r.id ≢ id) rows
    → All (λ (r : Row). r.id ≢ id) rows'
All-Advances id [] [] h k = tt
All-Advances id [] (r' ∷ rows') h k = absurd h
All-Advances id (r ∷ rows) [] h k = absurd h
All-Advances id (r ∷ rows) (r' ∷ rows') h k =
    (λ e. k.0 (cc (h.0.same_id)), All-Advances id rows rows' h.1 k.1)

Distinct-Advances :
    (rows rows' : Table) → Pointwise Advances rows rows' → Distinct rows → Distinct rows'
Distinct-Advances [] [] h d = tt
Distinct-Advances [] (r' ∷ rows') h d = absurd h
Distinct-Advances (r ∷ rows) [] h d = absurd h
Distinct-Advances (r ∷ rows) (r' ∷ rows') h d =
    (rw (h.0.same_id) (All-Advances r.id rows rows' h.1 d.0), Distinct-Advances rows rows' h.1 d.1)

module _ (validate_uuid : String → Bool) where
  new_row-Advances :
      (e : DockerEvent) (t : EventType) (d : String) (time now : ℕ) (reason : Reason) (row : Row)
      → is_stale row time ≡ false
      → Advances row (record (new_row validate_uuid e t d time reason row) { updated_at = now })
  unfolding new_row is_stale
  new_row-Advances e t d time now reason row h = record {
    same_id = refl;
    same_container = refl;
    later = ground arith;
  }

  handle-Advances :
      (e : DockerEvent) (now : ℕ) (faults : Faults) (s : State)
      → Distinct s.table
      → Pointwise Advances s.table (handle validate_uuid e now faults s).table
  handle-Advances e now faults s distinct =
      handle-Pointwise validate_uuid Advances Advances-refl e now faults s distinct
        λ t d reason row known fresh.
          new_row-Advances e t d (event_timestamp_ms e now) now reason row fresh

  -- For every sequence of events, in any order of their times and with any database calls failing,
  -- over a table with distinct ids: each row stays the same container in its place, and the time of
  -- its last event never goes back.
  pub handle_all-Advances :
      (es : List (DockerEvent × ℕ × Faults)) (s : State)
      → Distinct s.table
      → Pointwise Advances s.table (handle_all validate_uuid es s).table
  unfolding handle_all
  handle_all-Advances [] s distinct = Pointwise-refl Advances Advances-refl s.table
  handle_all-Advances ((e, now, faults) ∷ es) s distinct =
      let s' = handle validate_uuid e now faults s in
      let step = handle-Advances e now faults s distinct in
      Pointwise-trans s.table s'.table _ step
        (handle_all-Advances es s' (Distinct-Advances s.table s'.table step distinct))
