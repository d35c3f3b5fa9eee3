-- ===== src/Process/Table.antt =====
-- `ProcessTable` of crates/workbench-runtime/src/process.rs.
use distributed_workbench.Base.{
  ℕ, Str, bytes, Bool, true, false, not, Option, none, some, if◌then◌else◌, List, [], ◌∷◌, ◌++◌,
  Result, ok, err, saturating_add,
}
use distributed_workbench.Base.Lists.{is_nil}
use distributed_workbench.Base.Map.{Map, lookup, insert, map_values, values}
use distributed_workbench.Json.{Value, get, as_u64}
use distributed_workbench.Process.{
  running, stopped, ReadinessState, pending, not_configured, ProcessRecord, Seen, refresh,
  is_running,
}
use distributed_workbench.Protocol.{RpcError, rpc_error}

-- A call's answers: what a refresh sees, whether the table can be written, what `stop_process` answers
-- for the group that a pid leads, and for a start the log's length before it, the opening of the log and the child's pid.
pub record Os : Type 0 where
  pub seen : Seen
  pub save : Map ProcessRecord → Result RpcError (Unit {0})
  pub kill : ℕ → Result RpcError (Unit {0})
  pub open_log : Str → Result RpcError ℕ
  pub spawn : Str → List Str → Map Str → Result RpcError ℕ
  pub now : ℕ

-- A process group, by the pid of the process that leads it: where a signal to the pid as a group goes
-- (on Windows, the tree of the process). Each process that the table starts leads a group.
pub record Group : Type 0 where
  pub leader : ℕ

-- What a call leaves: the table, its result, the groups it has signalled, and the ids it has spawned.
pub record Outcome : Type 0 where
  pub records : Map ProcessRecord
  pub result : Result RpcError ProcessRecord
  pub signalled : List Group
  pub spawned : List Str

abbrev pub quiet : Map ProcessRecord → Result RpcError ProcessRecord → Outcome
quiet records result = record { records = records; result = result; signalled = []; spawned = [] }

abbrev pub unknown_process : Str → RpcError
unknown_process id = rpc_error (bytes "PROCESS_NOT_FOUND") (bytes "unknown process: " ++ id)

-- `self.persist(&records)?; Ok(result)`
abbrev pub saved : Result RpcError (Unit {0}) → ProcessRecord → Result RpcError ProcessRecord
saved (ok tt) r = ok r
saved (err e) r = err e

module _ (os : Os) where
  abbrev pub kept : Map ProcessRecord → Str → ProcessRecord → Outcome
  kept records id r = quiet (insert id r records) (saved (os.save (insert id r records)) r)

  abbrev pub get_found : Map ProcessRecord → Str → Option ProcessRecord → Outcome
  get_found records id none = quiet records (err (unknown_process id))
  get_found records id (some r) = kept records id (refresh os.seen r)

  unfoldable pub get_process : Map ProcessRecord → (id : Str) → Outcome
  get_process records id = get_found records id (lookup id records)

  -- The table is written; its failure is passed over.
  unfoldable pub list_processes : Map ProcessRecord → Map ProcessRecord × List ProcessRecord
  list_processes records =
      (map_values (refresh os.seen) records, values (map_values (refresh os.seen) records))

  -- The signal has been sent to the group that the process leads, whatever comes of it.
  abbrev pub stop_process : (pid : ℕ) → Outcome → Outcome
  stop_process pid o = record o { signalled = record { leader = pid } ∷ [] }

  abbrev pub after_kill :
      Map ProcessRecord → Str → ProcessRecord → Result RpcError (Unit {0}) → Outcome
  after_kill records id r (err e) = quiet (insert id r records) (err e)
  after_kill records id r (ok tt) =
      kept records id (record r { state = stopped; updated_at = os.now })

  abbrev pub stop_refreshed : Map ProcessRecord → Str → ProcessRecord → Outcome
  stop_refreshed records id r =
      if not (is_running r.state)
      then kept records id r
      else if not r.identity_verified
      then quiet (insert id r records) (
          err (
            rpc_error (bytes "PROCESS_IDENTITY_UNKNOWN")
              (bytes "cannot signal an unverified recorded PID")))
      else stop_process r.pid (after_kill records id r (os.kill r.pid))

  abbrev pub stop_found : Map ProcessRecord → Str → Option ProcessRecord → Outcome
  stop_found records id none = quiet records (err (unknown_process id))
  stop_found records id (some r) = stop_refreshed records id (refresh os.seen r)

  unfoldable pub stop : Map ProcessRecord → (id : Str) → Outcome
  stop records id = stop_found records id (lookup id records)

  abbrev update_found : Map ProcessRecord → Str → Value → Option ProcessRecord → Outcome
  update_found records id metadata none = quiet records (err (unknown_process id))
  update_found records id metadata (some r) =
      kept records id (record r { metadata = metadata; updated_at = os.now })

  unfoldable pub update_metadata : Map ProcessRecord → (id : Str) → Value → Outcome
  update_metadata records id metadata = update_found records id metadata (lookup id records)

-- The arguments of `start`.
pub record Start : Type 0 where
  pub id : Str
  pub cwd : Str
  pub argv : List Str
  pub env : Map Str
  pub log_path : Str
  pub readiness : Option Value
  pub restartable : Bool
  pub metadata : Value

abbrev timeout_of : Option Value → ℕ
timeout_of none = 180000
timeout_of (some v) = elim (as_u64 v) [ none ↦ 180000 | some n ↦ n ]

abbrev deadline_of : ℕ → Option Value → Option ℕ
deadline_of now none = none
deadline_of now (some spec) = some (saturating_add now (timeout_of (get spec (bytes "timeoutMs"))))

abbrev state_of : Option Value → ReadinessState
state_of none = not_configured
state_of (some spec) = pending

module _ (os : Os) where
  unfoldable pub started_record : Start → (pid offset : ℕ) → ProcessRecord
  started_record s pid offset = record {
    id = s.id;
    pid = pid;
    birth_identity = os.seen.birth pid;
    identity_verified = false;
    observed_at = none;
    cwd = s.cwd;
    argv = s.argv;
    env = s.env;
    restartable = s.restartable;
    metadata = s.metadata;
    log_path = s.log_path;
    log_start_offset = offset;
    state = running;
    readiness = record { state = state_of s.readiness; attempts = 0 };
    phase = bytes "STARTING";
    last_successful_probe_at = none;
    last_log_progress = some offset;
    readiness_spec = s.readiness;
    readiness_deadline_at = deadline_of os.now s.readiness;
    started_at = os.now;
    updated_at = os.now;
  }

  abbrev pub spawned_as : Map ProcessRecord → Start → ℕ → Result RpcError ℕ → Outcome
  spawned_as records s offset (err e) = quiet records (err e)
  spawned_as records s offset (ok pid) =
      record (kept os records s.id (started_record s pid offset)) { spawned = s.id ∷ [] }

  abbrev pub opened : Map ProcessRecord → Start → Result RpcError ℕ → Outcome
  opened records s (err e) = quiet records (err e)
  opened records s (ok offset) = spawned_as records s offset (os.spawn s.cwd s.argv s.env)

  -- The start proper, once the guard has passed.
  unfoldable pub launch : Map ProcessRecord → Start → Outcome
  launch records s = opened records s (os.open_log s.log_path)

abbrev pub occupied : Str → ProcessRecord → RpcError
occupied id r =
    rpc_error
      (if r.identity_verified
        then bytes "PROCESS_ALREADY_RUNNING"
        else bytes "PROCESS_IDENTITY_UNKNOWN")
      (bytes "process " ++ (id ++ bytes " requires reconciliation before replacement"))

-- `if let Ok(record) = self.get(&id) && record.state == Running`
abbrev pub guarded : (later : Os) → Start → Outcome → Outcome
guarded later s o = elim o.result [
  | err e ↦ launch later o.records s
  | ok r ↦
      if is_running r.state
      then quiet o.records (err (occupied s.id r))
      else launch later o.records s
]

-- The first answers are those of `get`, the second those of the start.
unfoldable pub start : (first later : Os) → Map ProcessRecord → Start → Outcome
start first later records s =
    if is_nil s.argv
    then quiet records (err (rpc_error (bytes "INVALID_PARAMS") (bytes "argv must not be empty")))
    else guarded later s (get_process first records s.id)

abbrev not_restartable : RpcError
not_restartable =
    rpc_error (bytes "PROCESS_NOT_RESTARTABLE")
      (bytes "process was not started from a declared restart template")

abbrev pub again : ProcessRecord → Start
again r = record {
  id = r.id;
  cwd = r.cwd;
  argv = r.argv;
  env = r.env;
  log_path = r.log_path;
  readiness = r.readiness_spec;
  restartable = true;
  metadata = r.metadata;
}

-- What an earlier call of the same operation has signalled comes first.
abbrev pub behind : Outcome → Outcome → Outcome
behind earlier o = record o { signalled = earlier.signalled ++ o.signalled }

abbrev pub restarted : (first later : Os) → ProcessRecord → Outcome → Outcome
restarted first later r o = elim o.result [
  | err e ↦ o
  | ok _ ↦ behind o (start first later o.records (again r))
]

abbrev pub restart_got : (at_stop first later : Os) → (id : Str) → Outcome → Outcome
restart_got at_stop first later id o = elim o.result [
  | err e ↦ o
  | ok r ↦
      if not r.restartable
      then quiet o.records (err not_restartable)
      else restarted first later r (stop at_stop o.records id)
]

-- The answers to `get`, to `stop`, and to the two parts of `start`.
unfoldable pub restart :
    (at_get at_stop first later : Os) → Map ProcessRecord → (id : Str) → Outcome
restart at_get at_stop first later records id =
    restart_got at_stop first later id (get_process at_get records id)
