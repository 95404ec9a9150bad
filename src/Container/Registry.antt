-- ===== src/Container/Registry.antt =====
-- infra/container/container.registry.ts: the operations on the table of containers. `now` is the time
-- of the call. Metadata is well typed: what `normalizeMetadata` does to ill-typed JSON is left out.
-- Each operation reads and writes the table in one step, except a claim, whose read and write are
-- steps of their own.
pub mod Writes
pub mod Lookup
pub mod Claims
pub mod Backoff
pub mod Expired
pub mod Tests
unfoldable pub use Writes.*
use agynio.Prelude.{
  ℕ, zero, suc, ◌+◌, ◌-◌, ◌*◌, ◌^◌, min, String, ◌≡◌, Bool, true, false, not, ◌&&◌, ◌||◌, Option,
  none, some, List, [], ◌∷◌, ◌++◌, ltb, leb, ◌==◌, str_eq, if◌then◌else◌, filter, any, get_or,
  truthy, length, Assoc,
}
use agynio.Prelude.Int.{ℤ, pos, negsuc}
use agynio.Prelude.Text.{codes, same_text, trim}
use agynio.Container.{
  ContainerStatus, running, stopped, terminating, failed, Mount, Metadata, Row, Table, update_where,
  find_unique, update_row,
}

-- `getMetadata`, the read of a claim.
unfoldable pub get_metadata : String → Table → Metadata
unfolding normalize_metadata
get_metadata container_id t = elim (find_unique container_id t) [
  | none ↦ normalize_metadata no_metadata
  | some r ↦ normalize_metadata r.metadata
]

abbrev pub is_running : Row → Bool
is_running r = elim r.status [ running ↦ true | _ ↦ false ]

abbrev pub is_terminating : Row → Bool
is_terminating r = elim r.status [ terminating ↦ true | _ ↦ false ]

-- The rows that a claim may write: the container's, while it runs.
abbrev pub is_claimable : String → Row → Bool
is_claimable container_id r = str_eq r.container_id container_id && is_running r

unfoldable pub count_where : (Row → Bool) → Table → ℕ
count_where p t = length (filter p t)

-- The compare-and-set of `claimForTermination`, with the metadata read before.
unfoldable pub claim_write : String → String → Metadata → ℕ → Table → Bool × Table
unfolding count_where
claim_write container_id claim_id current now t = (
  count_where (is_claimable container_id) t == 1,
  update_where (is_claimable container_id) now
      (λ r. record r {
        status = terminating;
        metadata = record current { claim_id = some claim_id };
      })
      t,
)

unfoldable pub claim_for_termination : String → String → ℕ → Table → Bool × Table
claim_for_termination container_id claim_id now t =
    claim_write container_id claim_id (get_metadata container_id t) now t

abbrev has_come : Option ℕ → ℕ → Bool
has_come none now = false
has_come (some at) now = leb at now

abbrev may_retry : Option ℕ → ℕ → Bool
may_retry none now = true
may_retry (some at) now = leb at now

-- The rows that `getExpired` returns: running past their deadline, or terminating and due for a try.
unfoldable pub is_expired : ℕ → Row → Bool
is_expired now r = elim r.status [
  | running ↦ has_come r.kill_after_at now
  | terminating ↦ may_retry r.metadata.retry_after now
  | _ ↦ false
]

unfoldable pub get_expired : ℕ → Table → List Row
unfolding is_expired
get_expired now t =
    filter (λ r. is_running r && is_expired now r) t
    ++ filter (λ r. is_terminating r && is_expired now r) t

-- `Math.min(Math.pow(2, attempts) * 1000, 15 * 60 * 1000)`
pub retry_delay_ms : ℕ → ℕ
retry_delay_ms attempts = min (2 ^ attempts * 1000) (15 * 60 * 1000)

unfoldable pub record_termination_failure : String → String → ℕ → Table → Table
unfolding normalize_metadata
record_termination_failure container_id message now = update_existing container_id now λ existing r.
    let m = normalize_metadata existing.metadata in
    let attempts = get_or m.termination_attempts 0 in
    record r {
      metadata = record m {
        last_error = some message;
        retry_after = some (now + retry_delay_ms attempts);
        termination_attempts = some (attempts + 1);
      };
    }

unfoldable pub is_historical : ℕ → Row → Bool
is_historical cutoff r = elim r.status [
  | stopped ↦ ltb r.updated_at cutoff
  | failed ↦ ltb r.updated_at cutoff
  | _ ↦ false
]

unfoldable pub delete_historical : ℕ → Table → ℕ × Table
unfolding is_historical count_where
delete_historical cutoff t =
    (count_where (is_historical cutoff) t, filter (λ r. not (is_historical cutoff r)) t)

abbrev pub in_thread : String → Row → Bool
in_thread thread_id r = elim r.thread_id [ none ↦ false | some t ↦ str_eq t thread_id ]

unfoldable pub list_by_thread : String → Table → List Row
list_by_thread thread_id t = if str_eq thread_id "" then [] else filter (in_thread thread_id) t

unfoldable pub find_by_volume : String → Table → List Row
find_by_volume volume t =
    if str_eq volume ""
    then []
    else filter (λ r. any (λ (m : Mount). same_text m.source (codes volume)) r.metadata.mounts) t
