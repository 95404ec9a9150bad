-- ===== src/Container/Registry/Writes.antt =====
-- infra/container/container.registry.ts and container.mounts.ts: what each operation of the registry
-- writes to a row, and the starts of containers.
use agynio.Prelude.{
  ℕ, zero, suc, ◌+◌, ◌*◌, String, ◌||◌, Option, none, some, List, [], ◌∷◌, ◌++◌, ◌==◌,
  if◌then◌else◌, get_or, truthy, Assoc,
}
use agynio.Prelude.Int.{ℤ, pos, negsuc}
use agynio.Prelude.Text.{same_text, trim}
use agynio.Container.{
  running, stopped, terminating, Mount, Metadata, Row, Table, find_unique, update_row,
}

abbrev pub default_ttl_seconds : ℤ
default_ttl_seconds = pos 86400

-- `computeKillAfter`; no seconds at all means the default, and none or fewer means never.
unfoldable pub compute_kill_after : ℕ → Option ℤ → Option ℕ
compute_kill_after last_used ttl_seconds = elim (get_or ttl_seconds default_ttl_seconds) [
  | pos zero ↦ none
  | pos (suc n) ↦ some (last_used + (suc n) * 1000)
  | negsuc n ↦ none
]

unfoldable pub sanitize_container_mounts : List Mount → List Mount
sanitize_container_mounts [] = []
sanitize_container_mounts (m ∷ ms) =
    let rest = sanitize_container_mounts ms in
    let source = trim m.source in
    let destination = trim m.destination in
    if same_text source [] || same_text destination []
    then rest
    else record { source = source; destination = destination } ∷ rest

unfoldable pub normalize_metadata : Metadata → Metadata
unfolding sanitize_container_mounts
normalize_metadata m = record m {
  ttl_seconds = some (get_or m.ttl_seconds default_ttl_seconds);
  mounts = sanitize_container_mounts m.mounts;
}

abbrev pub no_metadata : Metadata
no_metadata = record {
  labels = [];
  platform = none;
  ttl_seconds = none;
  last_error = none;
  retry_after = none;
  termination_attempts = none;
  claim_id = none;
  mounts = [];
  auto_removed = none;
  health = none;
  last_event_at = none;
}

pub record StartArgs : Type 0 where
  pub container_id : String
  pub node_id : String
  pub thread_id : String
  pub image : String
  pub labels : Option (Assoc String)
  pub platform : Option String
  pub ttl_seconds : Option ℤ
  pub mounts : List Mount
  pub name : Option (List ℕ)

abbrev pub without_slash : List ℕ → List ℕ
without_slash [] = []
without_slash (c ∷ s) = if c == b'/' then s else c ∷ s

-- `none` is the error that `sanitizeName` throws: no name, or a blank one.
unfoldable pub sanitize_name : Option (List ℕ) → Option (List ℕ)
sanitize_name none = none
sanitize_name (some value) =
    let trimmed = trim value in if same_text trimmed [] then none else some (without_slash trimmed)

unfoldable pub start_metadata : StartArgs → ℕ → Metadata
unfolding sanitize_container_mounts
start_metadata args now = record no_metadata {
  labels = get_or args.labels [];
  platform = args.platform;
  ttl_seconds = some (get_or args.ttl_seconds default_ttl_seconds);
  mounts = sanitize_container_mounts args.mounts;
  last_event_at = some now;
}

-- What a start writes, over the row that is there.
unfoldable pub started_row : StartArgs → ℕ → List ℕ → Row → Row
unfolding compute_kill_after start_metadata
started_row args now name r = record r {
  docker_container_id = args.container_id;
  node_id = args.node_id;
  thread_id = truthy (some args.thread_id);
  image = args.image;
  name = name;
  status = running;
  last_used_at = now;
  kill_after_at = compute_kill_after now args.ttl_seconds;
  termination_reason = none;
  deleted_at = none;
  metadata = start_metadata args now;
}

unfoldable pub created_row : ℕ → StartArgs → ℕ → List ℕ → Row
unfolding started_row
created_row id args now name = started_row args now name (record {
  id = id;
  container_id = args.container_id;
  docker_container_id = args.container_id;
  node_id = args.node_id;
  thread_id = none;
  image = args.image;
  name = name;
  status = running;
  updated_at = now;
  last_used_at = now;
  kill_after_at = none;
  termination_reason = none;
  deleted_at = none;
  metadata = no_metadata;
})

-- `registerStart`, an upsert by container id; `id` is the key that the database would give a new row.
unfoldable pub register_start : StartArgs → ℕ → ℕ → Table → Option Table
unfolding sanitize_name created_row started_row
register_start args id now t = elim (sanitize_name args.name) [
  | none ↦ none
  | some name ↦ elim (find_unique args.container_id t) [
    | none ↦ some (t ++ created_row id args now name ∷ [])
    | some r ↦ some (update_row args.container_id now (started_row args now name) t)
  ]
]

-- An update that does nothing where the container is not registered.
abbrev pub on_existing : String → ℕ → (Row → Row → Row) → Table → Option Row → Table
on_existing container_id now f t none = t
on_existing container_id now f t (some existing) = update_row container_id now (f existing) t

abbrev pub update_existing : String → ℕ → (Row → Row → Row) → Table → Table
update_existing container_id now f t = on_existing container_id now f t (find_unique container_id t)

abbrev pub or_ttl : Option ℤ → Option ℤ → Option ℤ
or_ttl (some ttl) meta = some ttl
or_ttl none meta = meta

unfoldable pub update_last_used : String → ℕ → Option ℤ → ℕ → Table → Table
unfolding compute_kill_after normalize_metadata
update_last_used container_id used_at ttl_override now =
    update_existing container_id now λ existing r. record r {
      last_used_at = used_at;
      kill_after_at =
          compute_kill_after used_at
            (or_ttl ttl_override (normalize_metadata existing.metadata).ttl_seconds);
    }

abbrev pub or_claim : Option String → Option String → Option String
or_claim claim old = elim (truthy claim) [ none ↦ old | some c ↦ some c ]

unfoldable pub mark_terminating : String → String → Option String → ℕ → Table → Table
unfolding normalize_metadata
mark_terminating container_id reason claim_id now = update_existing container_id now λ existing r.
    let m = normalize_metadata existing.metadata in
    record r {
      status = terminating;
      termination_reason = some reason;
      metadata = record m { claim_id = or_claim claim_id m.claim_id };
    }

unfoldable pub mark_stopped : String → String → ℕ → Table → Table
unfolding normalize_metadata
mark_stopped container_id reason now = update_existing container_id now λ existing r.
    let m = normalize_metadata existing.metadata in
    record r {
      status = stopped;
      deleted_at = none;
      termination_reason = some reason;
      metadata = record m { last_event_at = some now };
    }

unfoldable pub mark_deleted : String → String → ℕ → Table → Table
unfolding normalize_metadata
mark_deleted container_id reason now = update_existing container_id now λ existing r.
    let m = normalize_metadata existing.metadata in
    record r {
      status = stopped;
      deleted_at = some now;
      termination_reason = some reason;
      metadata = record m { last_event_at = some now };
    }
