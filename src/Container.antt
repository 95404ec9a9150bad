-- ===== src/Container.antt =====
-- The rows of the tables `Container` and `ContainerEvent` (packages/platform-server/prisma), with the
-- types of infra/container/container.registry.ts and the queries that the services make. Times are
-- milliseconds since the epoch; the program writes them as ISO texts, which denote them exactly. A
-- field that is absent from the JSON metadata is `none`.
pub mod Examples
pub mod Reason
pub mod Processor
pub mod Registry
pub mod Cleanup
pub mod Termination
use agynio.Prelude.{
  ℕ, String, ◌≡◌, refl, Bool, true, false, Option, none, some, List, [], ◌∷◌, arith, str_eq, eq_iff,
  if◌then◌else◌, find, filter, Assoc,
}
use agynio.Prelude.Int.{ℤ}

pub data ContainerStatus : Type 0 where
  running stopped terminating failed : ContainerStatus

pub data HealthStatus : Type 0 where
  healthy unhealthy starting : HealthStatus

pub data EventType : Type 0 where
  create start stop die kill destroy restart oom health_status : EventType

pub record Mount : Type 0 where
  pub source : List ℕ
  pub destination : List ℕ

pub record Metadata : Type 0 where
  pub labels : Assoc String
  pub platform : Option String
  pub ttl_seconds : Option ℤ
  pub last_error : Option String
  pub retry_after : Option ℕ
  pub termination_attempts : Option ℕ
  pub claim_id : Option String
  pub mounts : List Mount
  pub auto_removed : Option Bool
  pub health : Option HealthStatus
  pub last_event_at : Option ℕ

pub record Row : Type 0 where
  pub id : ℕ
  pub container_id : String
  pub docker_container_id : String
  pub node_id : String
  pub thread_id : Option String
  pub image : String
  pub name : List ℕ
  pub status : ContainerStatus
  pub updated_at : ℕ
  pub last_used_at : ℕ
  pub kill_after_at : Option ℕ
  pub termination_reason : Option String
  pub deleted_at : Option ℕ
  pub metadata : Metadata

abbrev pub Table : Type 0
Table = List Row

-- `prisma.container.update` and `updateMany`: every row that passes is rewritten, and stamped.
pub update_where : (Row → Bool) → ℕ → (Row → Row) → Table → Table
update_where p now f [] = []
update_where p now f (r ∷ rows) =
    let rest = update_where p now f rows in
    if p r then record (f r) { updated_at = now } ∷ rest else r ∷ rest

-- `findUnique({ where: { containerId } })`.
abbrev pub find_unique : String → Table → Option Row
find_unique container_id = find λ (r : Row). str_eq r.container_id container_id

-- `update({ where: { containerId } })`: the key is unique, and no update changes it.
abbrev pub update_row : String → ℕ → (Row → Row) → Table → Table
update_row container_id = update_where λ (r : Row). str_eq r.container_id container_id
