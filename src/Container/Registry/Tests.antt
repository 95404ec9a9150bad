-- ===== src/Container/Registry/Tests.antt =====
-- The container registry on concrete inputs.
use agynio.Prelude.{
  ℕ, String, ◌≡◌, refl, Option, none, some, List, [], ◌∷◌, arith, eq_iff, map, get_or,
}
use agynio.Prelude.Int.{pos, negsuc}
use agynio.Prelude.Text.{codes}
use agynio.Container.{Row, Table, running, terminating, stopped, find_unique}
use agynio.Container.Examples.{blank, runs_until}
use agynio.Container.Registry.{
  StartArgs, register_start, update_last_used, mark_terminating, mark_deleted, list_by_thread,
  find_by_volume, record_termination_failure, retry_delay_ms, delete_historical,
}
use agynio.Container.Registry.Lookup.{Keyed}
use agynio.Container.Registry.Claims.{
  Attempt, attempt_all, only_first, claims, attempt_all-one_wins,
}
use agynio.Container.Registry.Backoff.{Waits, termination_failure-Waits}

abbrev two : Table
two =
    runs_until "web" 100
    ∷ record (runs_until "db" 900) {
      status = terminating;
      metadata = record blank { termination_attempts = some 3 };
    }
    ∷ []

two-Keyed : Keyed two
two-Keyed = (((λ (e : "db" ≡ "web"). ground (arith, eq_iff "db" "web", e)), tt), (tt, tt))

abbrev attempts : List Attempt
attempts = ("a", blank, 5) ∷ ("b", blank, 6) ∷ []

attempt_all-one_wins_example :
    (attempt_all "web" attempts two).0 ≡ only_first (claims (find_unique "web" two)) attempts
attempt_all-one_wins_example = attempt_all-one_wins "web" attempts two two-Keyed

abbrev db : Row
db = record (runs_until "db" 900) {
  status = terminating;
  metadata = record blank { termination_attempts = some 3 };
}

termination_failure-Waits_example :
    Waits 50 3 (retry_delay_ms 3) (find_unique "db" (record_termination_failure "db" "no" 50 two))
termination_failure-Waits_example = termination_failure-Waits "db" "no" 50 two db refl refl

abbrev start_args : StartArgs
start_args = record {
  container_id = "new";
  node_id = "node";
  thread_id = "thread";
  image = "image";
  labels = none;
  platform = none;
  ttl_seconds = some (pos 10);
  mounts =
      record { source = codes "vol "; destination = codes "/data" }
      ∷ record { source = codes " "; destination = [] }
      ∷ [];
  name = some (codes " /box ");
}

abbrev deadlines : Option Table → List (Option ℕ)
deadlines none = []
deadlines (some t) = map (λ (r : Row). r.kill_after_at) t

register_start-deadlines :
    deadlines (register_start start_args 7 1000 two) ≡ some 100 ∷ some 900 ∷ some 11000 ∷ []
unfolding register_start
register_start-deadlines = refl

register_start-no_name :
    register_start (record start_args { name = some (codes " ") }) 7 1000 two ≡ none
unfolding register_start
register_start-no_name = refl

abbrev ids : List Row → List String
ids = map λ (r : Row). r.container_id

abbrev or_empty : Option Table → Table
or_empty o = get_or o []

find_by_volume-new :
    ids (find_by_volume "vol" (or_empty (register_start start_args 7 1000 two))) ≡ "new" ∷ []
unfolding find_by_volume register_start
find_by_volume-new = refl

list_by_thread-two : ids (list_by_thread "thread" two) ≡ "web" ∷ "db" ∷ []
unfolding list_by_thread
list_by_thread-two = refl

list_by_thread-empty : list_by_thread "" two ≡ []
unfolding list_by_thread
list_by_thread-empty = refl

update_last_used-deadline :
    deadlines (some (update_last_used "web" 40 none 41 two)) ≡ some 86400040 ∷ some 900 ∷ []
unfolding update_last_used agynio.Container.update_where
update_last_used-deadline = refl

update_last_used-never :
    deadlines (some (update_last_used "web" 40 (some (negsuc 0)) 41 two)) ≡ none ∷ some 900 ∷ []
unfolding update_last_used agynio.Container.update_where
update_last_used-never = refl

abbrev claim_ids : Table → List (Option String)
claim_ids = map λ (r : Row). r.metadata.claim_id

mark_terminating-claims :
    claim_ids (mark_terminating "web" "closed" (some "c") 41 two) ≡ some "c" ∷ none ∷ []
unfolding mark_terminating agynio.Container.update_where
mark_terminating-claims = refl

mark_deleted-historical : (delete_historical 60 (mark_deleted "web" "gone" 41 two)).0 ≡ 1
unfolding delete_historical mark_deleted agynio.Container.update_where
mark_deleted-historical = refl
