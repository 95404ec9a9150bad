-- ===== src/Container/Termination/Tests.antt =====
-- The end of a thread on a concrete input.
use agynio.Prelude.{ℕ, String, ◌≡◌, refl, Bool, true, false, none, some, List, [], ◌∷◌, map}
use agynio.Prelude.Text.{codes}
use agynio.Container.{Row, Table, find_unique, Mount}
use agynio.Container.Examples.{blank, runs_until}
use agynio.Container.Registry.{find_by_volume, get_expired}
use agynio.Container.Termination.{Draws, terminate_by_thread}
use agynio.Container.Termination.Threads.{Left, belongs, terminate_by_thread-Left}

abbrev mounted : Table
mounted =
    record (runs_until "web" 900) {
      metadata = record blank {
        mounts = record { source = codes "vol"; destination = codes "/data" } ∷ [];
      };
    }
    ∷ record (runs_until "db" 900) { thread_id = some "other" }
    ∷ []

abbrev draws : Draws
draws = record {
  candidate = λ id. "claim";
  claim_throws = λ id. false;
  update_throws = λ id. false;
}

terminate_by_thread-Left_example :
    Left draws "web" 7
      (find_unique "web" mounted)
      (find_unique "web" (terminate_by_thread "thread" ("gone" ∷ []) draws 7 mounted))
      (belongs "thread" ("gone" ∷ []) mounted "web")
      false
terminate_by_thread-Left_example =
    terminate_by_thread-Left "thread" ("gone" ∷ []) draws 7 mounted "web" refl tt

abbrev ids : List Row → List String
ids = map λ (r : Row). r.container_id

find_by_volume-before : ids (find_by_volume "vol" mounted) ≡ "web" ∷ []
unfolding find_by_volume
find_by_volume-before = refl

-- The volume is still mounted, but the registry does not know.
find_by_volume-after : find_by_volume "vol" (terminate_by_thread "thread" [] draws 7 mounted) ≡ []
unfolding find_by_volume terminate_by_thread agynio.Container.Termination.process_each
    agynio.Container.Termination.process_container
    agynio.Container.Termination.ensure_registry_record agynio.Prelude.lookup agynio.Prelude.insert
    agynio.Container.Termination.mark_row agynio.Container.update_where
    agynio.Container.Registry.claim_for_termination agynio.Container.Registry.claim_write
find_by_volume-after = refl
