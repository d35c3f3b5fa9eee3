-- ===== src/Tests/Observations.antt =====
-- The store of observations on concrete runs and rows.
use distributed_workbench.Base.{
  ℕ, ◌-◌, ◌*◌, bytes, none, some, ◌≡◌, arith, [], ◌∷◌, Str-discrete, ℕ_discrete,
}
use distributed_workbench.Base.Lists.{length, filter}
use distributed_workbench.Json.{null}
use distributed_workbench.Observability.{
  Store, Row, selected, observations_of, prune_with_max_bytes, unexpired, is_kept, retention_ms,
  finished, invalid_transition,
}
use distributed_workbench.Observability.Paging.{read_pages, read_pages-all}
use distributed_workbench.Observability.Pruning.{Ends, prune_with_max_bytes-Ends}
use distributed_workbench.Schema.Run.{Run, Observation, running, completed, unknown}
use distributed_workbench.Task.{invalid_transition}

abbrev nightly : Run
nightly = record {
  run_id = bytes "run_1";
  workspace_session_id = none;
  agent_session_id = none;
  target_summary = bytes "nightly";
  created_by = bytes "ci";
  status = running;
  health = unknown;
  started_at = 5;
  finished_at = none;
  business_outcome = none;
}

abbrev seen : Observation
seen = record {
  event_id = 0;
  run_id = some (bytes "run_1");
  timestamp = 6;
  node_id = bytes "desk";
  role = bytes "controller";
  kind = bytes "task";
  name = bytes "task.submit";
  status = bytes "ok";
  duration_ms = none;
  span_id = none;
  parent_span_id = none;
  request_id = none;
  task_id = none;
  process_id = none;
  connection_id = none;
  attributes = null;
}

abbrev row_of : (event_id timestamp : ℕ) → Row
row_of event_id timestamp = record {
  event_id = event_id;
  run_id = some (bytes "run_1");
  timestamp = timestamp;
  payload = record seen { timestamp = timestamp };
}

abbrev store : Store
store = record {
  runs = record { payload = nightly; started_at = 5; status = bytes "running" } ∷ [];
  observations = row_of 1 6 ∷ row_of 2 7 ∷ row_of 4 3000000000 ∷ [];
  sequence = 4;
}

abbrev done : Run
done = finished nightly completed 9 none

abbrev after : Store
after = record store {
  runs = record { payload = done; started_at = 5; status = bytes "completed" } ∷ [];
}

read_pages-all_example :
    read_pages 3 store (some (bytes "run_1")) 1 1
    ≡ observations_of (filter (selected (some (bytes "run_1")) 1) store.observations)
unfolding Str-discrete ℕ_discrete
read_pages-all_example =
    read_pages-all 3 store (some (bytes "run_1")) 1 1
      ((omega arith, (omega arith, tt)), ((omega arith, tt), (tt, tt))) (omega arith)

abbrev database_bytes : Store → ℕ
database_bytes s = 100 * length s.observations

prune_with_max_bytes-Ends_example :
    Ends database_bytes 50
      (unexpired database_bytes (3000000000 - retention_ms) store)
      (length store.observations
        - length (filter (is_kept (3000000000 - retention_ms)) store.observations))
      (prune_with_max_bytes database_bytes 4 store 3000000000 50)
prune_with_max_bytes-Ends_example =
    prune_with_max_bytes-Ends database_bytes 4 store 3000000000 50 (omega arith)
