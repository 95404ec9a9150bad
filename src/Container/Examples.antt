-- ===== src/Container/Examples.antt =====
-- Rows that the tests of the container services share.
use agynio.Prelude.{ℕ, String, none, some, []}
use agynio.Container.{Row, Metadata, running}

abbrev pub blank : Metadata
blank = record {
  labels = [];
  platform = none;
  ttl_seconds = none;
  last_error = none;
  retry_after = none;
  termination_attempts = none;
  claim_id = none;
  mounts = [];
  auto_removed = none;
  health = none;
  last_event_at = none;
}

-- A running container with the given id and deadline.
abbrev pub runs_until : String → ℕ → Row
runs_until id deadline = record {
  id = 1;
  container_id = id;
  docker_container_id = id;
  node_id = "node";
  thread_id = some "thread";
  image = "image";
  name = [];
  status = running;
  updated_at = 0;
  last_used_at = 0;
  kill_after_at = some deadline;
  termination_reason = none;
  deleted_at = none;
  metadata = blank;
}
