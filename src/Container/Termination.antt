-- ===== src/Container/Termination.antt =====
-- infra/container/containerThreadTermination.service.ts: marking the containers of a closed thread for
-- termination. The ids that Docker finds by label, which claims and updates throw, the claim ids drawn and the time
-- are arguments. The queue holds a set of ids, so the guard on ids processed before never applies.
pub mod Marks
pub mod Claims
pub mod Threads
pub mod Tests
use agynio.Prelude.{
  ℕ, String, Bool, true, false, not, ◌&&◌, ◌||◌, Option, none, some, List, [], ◌∷◌, ◌++◌, filter,
  has, get_or, str_eq, if◌then◌else◌, Assoc, lookup, insert,
}
use agynio.Container.{
  ContainerStatus, running, terminating, Metadata, Row, Table, find_unique, update_row,
}
use agynio.Container.Registry.{
  default_ttl_seconds, no_metadata, in_thread, is_running, is_terminating, claim_for_termination,
}

-- This service's own `normalizeMetadata`, which keeps seven of the fields.
pub normalize_metadata : Metadata → Metadata
normalize_metadata m = record no_metadata {
  labels = m.labels;
  platform = m.platform;
  ttl_seconds = some (get_or m.ttl_seconds default_ttl_seconds);
  last_error = m.last_error;
  retry_after = m.retry_after;
  termination_attempts = m.termination_attempts;
  claim_id = m.claim_id;
}

-- What the service remembers of a row: its status and metadata.
abbrev pub Cached : Type 0
Cached = ContainerStatus × Metadata

cached_row : Row → Cached
unfolding normalize_metadata
cached_row r = (r.status, normalize_metadata r.metadata)

pub fill_cache : List Row → Assoc Cached → Assoc Cached
unfolding cached_row
fill_cache [] cache = cache
fill_cache (r ∷ rows) cache = fill_cache rows (insert r.container_id (cached_row r) cache)

-- `ensureRegistryRecord`, without the entry that it adds for an id that is not asked for again.
abbrev or_stored : Option Cached → Option Row → Option Cached
or_stored (some cached) row = some cached
or_stored none none = none
or_stored none (some r) = some (cached_row r)

pub ensure_registry_record : String → Assoc Cached → Table → Option Cached
unfolding cached_row
ensure_registry_record id cache t = or_stored (lookup id cache) (find_unique id t)

pub record Draws : Type 0 where
  pub candidate : String → String
  pub claim_throws : String → Bool
  pub update_throws : String → Bool

abbrev pub is_running_status : ContainerStatus → Bool
is_running_status s = elim s [ running ↦ true | _ ↦ false ]

-- The claim of a container that was running: whether it is won, and the table.
abbrev pub try_claim : Draws → String → ℕ → Table → ContainerStatus → Bool × Table
try_claim draws id now t status =
    if is_running_status status && not (draws.claim_throws id)
    then claim_for_termination id (draws.candidate id) now t
    else (false, t)

abbrev metadata_of : Option Row → Metadata → Metadata
metadata_of none old = old
metadata_of (some r) old = r.metadata

abbrev with_claim : Bool → String → Metadata → Metadata
with_claim won id m = if won then record m { claim_id = some id } else m

-- The update that follows, from the refreshed metadata; one that throws is logged and changes nothing.
pub mark_row : Draws → String → Bool → Metadata → ℕ → Table → Table
unfolding normalize_metadata
mark_row draws id won metadata now t =
    if draws.update_throws id
    then t
    else update_row id now
        (λ r. record r {
          status = terminating;
          termination_reason = some "thread_closed";
          metadata = record (with_claim won (draws.candidate id) (normalize_metadata metadata)) {
            retry_after = some now;
          };
        })
        t

abbrev pub process_found : Draws → String → ℕ → Table → Option Cached → Table
process_found draws id now t none = t
process_found draws id now t (some (status, metadata)) =
    let (won, t') = try_claim draws id now t status in
    mark_row draws id won (metadata_of (find_unique id t') metadata) now t'

pub process_container : Draws → Assoc Cached → ℕ → String → Table → Table
process_container draws cache now id t =
    process_found draws id now t (ensure_registry_record id cache t)

pub process_each : Draws → Assoc Cached → ℕ → List String → Table → Table
process_each draws cache now [] t = t
process_each draws cache now (id ∷ ids) t =
    process_each draws cache now ids
      (if str_eq id "" then t else process_container draws cache now id t)

abbrev pub is_open : String → Row → Bool
is_open thread r = in_thread thread r && (is_running r || is_terminating r)

-- `Set.add`, one id after another.
pub add_ids : List String → List String → List String
add_ids [] ids = ids
add_ids (id ∷ more) ids = add_ids more (if has ids id then ids else ids ++ id ∷ [])

abbrev pub ids_of : List Row → List String
ids_of [] = []
ids_of (r ∷ rows) = r.container_id ∷ ids_of rows

pub pending_ids : String → List String → Table → List String
unfolding add_ids
pending_ids thread discovered t =
    add_ids discovered (add_ids (ids_of (filter (is_open thread) t)) [])

-- `terminateByThread`: `discovered` is empty if Docker fails.
pub terminate_by_thread : String → List String → Draws → ℕ → Table → Table
unfolding fill_cache pending_ids
terminate_by_thread thread discovered draws now t =
    process_each draws (fill_cache (filter (is_open thread) t) []) now
      (pending_ids thread discovered t) t
