-- ===== src/Observability.antt =====
-- crates/workbench-core/src/observability.rs. A table of the database is a list of rows in the order
-- of their insertion; a payload is the value that it encodes. The text of an SQL error is an argument.
pub mod Paging
pub mod Pruning
pub mod Runs
use distributed_workbench.Base.{
  ℕ, zero, suc, ◌+◌, ◌-◌, ◌*◌, ◌/◌, ◌≤◌, Str, bytes, Bool, true, false, not, ◌&&◌, ◌||◌, Option,
  none, some, ◌==◌, if◌then◌else◌, List, [], ◌∷◌, ◌++◌, Result, ok, err, guard, ok_or, ◌>>=◌, leb,
  ltb, min, max, is_some_of,
}
use distributed_workbench.Base.Lists.{length, filter, take, drop}
use distributed_workbench.Schema.Run.{
  Run, RunStatus, RunHealth, Observation, running, completed, cancelled, interrupted, healthy,
  degraded, failed, unknown, is_running,
}

pub data ObservabilityError : Type 0 where
  sql : Str → ObservabilityError
  run_not_found : Str → ObservabilityError
  invalid_transition : Str → ObservabilityError

-- The columns of a run's row; its id is the payload's.
pub record RunRow : Type 0 where
  pub payload : Run
  pub started_at : ℕ
  pub status : Str

-- The columns of an observation's row.
pub record Row : Type 0 where
  pub event_id : ℕ
  pub run_id : Option Str
  pub timestamp : ℕ
  pub payload : Observation

-- The last id of `AUTOINCREMENT` outlives the rows.
pub record Store : Type 0 where
  pub runs : List RunRow
  pub observations : List Row
  pub sequence : ℕ

abbrev find_row : Str → List RunRow → Option Run
find_row id [] = none
find_row id (r ∷ rs) = if r.payload.run_id == id then some r.payload else find_row id rs

unfoldable pub get_run : Store → (id : Str) → Option Run
get_run s id = find_row id s.runs

abbrev is_there : Option Run → Bool
is_there none = false
is_there (some r) = true

-- The primary key is the id of the run.
unfoldable pub start_run : Store → Run → (duplicate : Str) → Result ObservabilityError Store
start_run s run duplicate =
    if is_there (get_run s run.run_id)
    then err (sql duplicate)
    else ok (record s {
      runs =
          s.runs
          ++ record { payload = run; started_at = run.started_at; status = bytes "running" } ∷ [];
    })

abbrev health_of : Option Str → RunStatus → RunHealth
health_of outcome status = if is_some_of outcome (bytes "failed") then failed else elim status [
  | completed ↦ healthy
  | cancelled ↦ degraded
  | interrupted ↦ degraded
  | running ↦ unknown
]

unfoldable pub finished : Run → RunStatus → (finished_at : ℕ) → Option Str → Run
finished run status finished_at outcome = record run {
  status = status;
  finished_at = some finished_at;
  business_outcome = outcome;
  health = health_of outcome status;
}

abbrev status_text : RunStatus → Str
status_text running = bytes "running"
status_text completed = bytes "completed"
status_text cancelled = bytes "cancelled"
status_text interrupted = bytes "interrupted"

-- `UPDATE runs SET payload, status WHERE run_id`
abbrev update_rows : Str → Run → List RunRow → List RunRow
update_rows id run [] = []
update_rows id run (r ∷ rs) =
    (if r.payload.run_id == id
      then record r { payload = run; status = status_text run.status }
      else r)
    ∷ update_rows id run rs

unfoldable pub finish_run :
    Store
    → (id : Str) → RunStatus
    → (finished_at : ℕ) → Option Str
    → Result ObservabilityError (Store × Run)
finish_run s id status finished_at outcome = do
  _ ←
      guard (not (is_running status))
        (invalid_transition (bytes "finished run cannot remain running"))
  run ← ok_or (get_run s id) (run_not_found id)
  _ ←
      guard (is_running run.status)
        (invalid_transition (bytes "run " ++ (id ++ bytes " is already terminal")))
  ok (
    record s { runs = update_rows id (finished run status finished_at outcome) s.runs },
    finished run status finished_at outcome,
  )

unfoldable pub clamp : (low high n : ℕ) → ℕ
clamp low high n = min (max n low) high

-- `ORDER BY started_at DESC`; rows of one time stand in the order of their insertion.
abbrev place : RunRow → List RunRow → List RunRow
place r [] = r ∷ []
place r (q ∷ qs) = if ltb q.started_at r.started_at then r ∷ q ∷ qs else q ∷ place r qs

unfoldable pub newest_first : List RunRow → List RunRow → List RunRow
newest_first sorted [] = sorted
newest_first sorted (r ∷ rs) = newest_first (place r sorted) rs

abbrev payloads : List RunRow → List Run
payloads [] = []
payloads (r ∷ rs) = r.payload ∷ payloads rs

unfoldable pub list_runs : Store → (limit : ℕ) → List Run
list_runs s limit = payloads (take (clamp 1 500 limit) (newest_first [] s.runs))

unfoldable pub append : Store → Observation → Store × ℕ
append s observation = (
  record s {
    observations =
        s.observations
        ++ record {
          event_id = suc s.sequence;
          run_id = observation.run_id;
          timestamp = observation.timestamp;
          payload = record observation { event_id = 0 };
        }
          ∷ [];
    sequence = suc s.sequence;
  },
  suc s.sequence,
)

pub record ObservationQuery : Type 0 where
  pub run_id : Option Str
  pub after_event_id : Option ℕ
  pub limit : ℕ

-- `?1 IS NULL OR run_id = ?1`
abbrev pub of_run : Option Str → Row → Bool
of_run none r = true
of_run (some id) r = is_some_of r.run_id id

abbrev pub or_zero : Option ℕ → ℕ
or_zero none = 0
or_zero (some n) = n

abbrev pub selected : Option Str → (after : ℕ) → Row → Bool
selected run_id after r = of_run run_id r && ltb after r.event_id

abbrev pub with_id : Row → Observation
with_id r = record r.payload { event_id = r.event_id }

abbrev pub observations_of : List Row → List Observation
observations_of [] = []
observations_of (r ∷ rs) = with_id r ∷ observations_of rs

-- The rows stand in the order of their ids already.
unfoldable pub query : Store → ObservationQuery → List Observation
query s q = observations_of (
    take (clamp 1 1000 q.limit)
      (filter (selected q.run_id (or_zero q.after_event_id)) s.observations))

-- Thirty days in milliseconds, and 2 ^ 30 bytes.
abbrev pub retention_ms : ℕ
retention_ms = 2592000000

abbrev pub max_bytes : ℕ
max_bytes = 1073741824

abbrev pub is_kept : (cutoff : ℕ) → Row → Bool
is_kept cutoff r = not (ltb r.timestamp cutoff)

abbrev pub is_kept_run : (cutoff : ℕ) → RunRow → Bool
is_kept_run cutoff r = not (ltb r.started_at cutoff && not (r.status == bytes "running"))

-- How many rows one round of the loop deletes: `MAX(1, COUNT(*) / 10)` of those there are.
abbrev pub batch : List Row → ℕ
batch rows = min (max 1 (length rows / 10)) (length rows)

-- The size of the database's files is a parameter.
module _ (database_bytes : Store → ℕ) where
  -- The loop, for so many rounds; `none` where it has not ended by then. The count is of the rows
  -- deleted.
  unfoldable pub shrink : (rounds : ℕ) → (limit : ℕ) → Store → (removed : ℕ) → Option (Store × ℕ)
  shrink zero limit s removed = none
  shrink (suc n) limit s removed = elim (leb (database_bytes s) limit) [
    | true ↦ some (s, removed)
    | false ↦ elim (leb (batch s.observations) 0) [
      | true ↦ some (s, removed)
      | false ↦
          shrink n limit (record s { observations = drop (batch s.observations) s.observations })
            (removed + batch s.observations)
    ]
  ]

  -- What is older than the retention goes first; a run that has not finished stays.
  abbrev pub unexpired : (cutoff : ℕ) → Store → Store
  unexpired cutoff s = record s {
    observations = filter (is_kept cutoff) s.observations;
    runs = filter (is_kept_run cutoff) s.runs;
  }

  unfoldable pub prune_with_max_bytes :
      (rounds : ℕ) → Store → (now_ms max_bytes : ℕ) → Option (Store × ℕ)
  prune_with_max_bytes rounds s now_ms max_bytes =
      shrink rounds max_bytes (unexpired (now_ms - retention_ms) s)
        (length s.observations - length (filter (is_kept (now_ms - retention_ms)) s.observations))

  unfoldable pub prune : (rounds : ℕ) → Store → (now_ms : ℕ) → Option (Store × ℕ)
  prune rounds s now_ms = prune_with_max_bytes rounds s now_ms max_bytes
