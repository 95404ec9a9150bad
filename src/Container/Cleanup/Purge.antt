-- ===== src/Container/Cleanup/Purge.antt =====
-- A whole sweep: the due containers, and the purge of old rows.
use agynio.Prelude.{
  ℕ, ◌+◌, ◌*◌, String, ◌≡◌, ◌≢◌, Bool, true, false, not, ◌&&◌, Option, none, some, ltb,
  if◌then◌else◌, All,
}
use agynio.Container.{Row, Table, ContainerStatus, stopped, failed, find_unique}
use agynio.Container.Registry.{get_expired}
use agynio.Container.Cleanup.{Docker, Settings}
use agynio.Container.Cleanup.Sweep.{Swept}

abbrev pub is_ended : ContainerStatus → Bool
is_ended s = elim s [ stopped ↦ true | failed ↦ true | _ ↦ false ]

-- Over, and not written for as many days as the settings keep such rows.
abbrev pub is_old : Settings → ℕ → Row → Bool
is_old c now r =
    is_ended r.status
    && ltb 0 c.retention_days
    && ltb (r.updated_at + c.retention_days * (24 * 60 * 60 * 1000)) now

-- What a purge leaves of a row.
abbrev pub unless_old : Settings → ℕ → Bool → Option Row → Option Row
unless_old c now purge_fails none = none
unless_old c now purge_fails (some r) = if not purge_fails && is_old c now r then none else some r

abbrev kept_if : (Row → Bool) → Option Row → Option Row
kept_if p none = none
kept_if p (some r) = if p r then some r else none

-- What a sweep over `t` that draws its list at `now` leaves.
pub record Leaves (c : Settings) (docker : Docker) (claim : String → String) (clock now : ℕ)
    (purge_fails : Bool) (t t' : Table) : Type 0 where
  pub due :
      All
        (λ (d : Row). Swept docker claim clock d (find_unique d.container_id t'))
        (get_expired now t)
  pub others :
      (j : String)
      → All (λ (d : Row). d.container_id ≢ j) (get_expired now t)
      → find_unique j t' ≡ unless_old c now purge_fails (find_unique j t)
