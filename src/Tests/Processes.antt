-- ===== src/Tests/Processes.antt =====
-- Managed processes on concrete records and answers.
use distributed_workbench.Base.{
  ◌+◌, bytes, true, false, ◌==◌, if◌then◌else◌, none, some, ◌≡◌, refl, arith, List, [], ◌∷◌, ok,
  err, saturating_add, Str-discrete, ℕ_discrete, ◌↔◌, ◌≢◌,
}
use distributed_workbench.Base.Lists.{All}
use distributed_workbench.Base.Map.{Map, lookup}
use distributed_workbench.Base.Trim.{is}
use distributed_workbench.Json.{Value, null, string, object, end, field, get, as_str}
use distributed_workbench.Process.{
  ProcessRecord, Seen, refresh, running, pending, ready, recheck_tunnel, note_log, probe_pending,
}
use distributed_workbench.Process.Readiness.{Probed, readiness_once, readiness_type, single_once}
use distributed_workbench.Process.Signals.{IsOwn, stop-IsOwn}
use distributed_workbench.Process.Starting.{CanLaunch, MaySpawn, start_iff}
use distributed_workbench.Process.Table.{Os, stop, Start, start, get_process, launch}
use distributed_workbench.Process.Waiting.{Round, wait_ready, wait_ready-IsEnded, IsEnded, IsReady}
use distributed_workbench.Protocol.{RpcError, rpc_error}

-- A file of the name `/tmp/up` is there, the process 7 was born as `b7`, and every process lives.
abbrev probed : Probed
probed = record {
  connects = λ address. ok (address == bytes "127.0.0.1:8080");
  exists = λ path. path == bytes "/tmp/up";
  read = λ path. some (bytes "compiling");
  from_utf8_lossy = λ s. s;
}

abbrev seen : Seen
seen = record {
  clock = λ n. 5000 + n;
  is_alive = λ pid. true;
  birth = λ pid. if is pid 7 then some (bytes "b7") else none;
  length_of = λ path. some 9;
  probed = probed;
}

abbrev writing : Os
writing = record {
  seen = seen;
  save = λ records. ok tt;
  kill = λ pid. ok tt;
  open_log = λ path. ok 9;
  spawn = λ cwd argv env. ok 8;
  now = 5000;
}

abbrev disk_full : RpcError
disk_full = rpc_error (bytes "PROCESS_STATE_FAILED") (bytes "disk full")

abbrev full : Os
full = record writing { save = λ records. err disk_full }

abbrev file_probe : Value
file_probe = object (
    field (bytes "path") (string (bytes "/tmp/up"))
      (field (bytes "type") (string (bytes "file")) end))

abbrev web : Start
web = record {
  id = bytes "web";
  cwd = bytes "/srv";
  argv = bytes "serve" ∷ [];
  env = [];
  log_path = bytes "/tmp/log";
  readiness = some file_probe;
  restartable = true;
  metadata = null;
}

-- The record of `web` as an earlier start has left it.
abbrev web_record : ProcessRecord
web_record = record {
  id = bytes "web";
  pid = 7;
  birth_identity = some (bytes "b7");
  identity_verified = false;
  observed_at = none;
  cwd = bytes "/srv";
  argv = bytes "serve" ∷ [];
  env = [];
  restartable = true;
  metadata = null;
  log_path = bytes "/tmp/log";
  log_start_offset = 0;
  state = running;
  readiness = record { state = pending; attempts = 0 };
  phase = bytes "STARTING";
  last_successful_probe_at = none;
  last_log_progress = some 0;
  readiness_spec = some file_probe;
  readiness_deadline_at = some 180000;
  started_at = 0;
  updated_at = 0;
}

abbrev table : Map ProcessRecord
table = (bytes "web", web_record) ∷ []

web_refreshed : refresh seen web_record ≡ record web_record {
  identity_verified = true;
  observed_at = some 5000;
  readiness = record { state = ready; attempts = 1 };
  phase = bytes "READY";
  last_successful_probe_at = some 5003;
  last_log_progress = some 9;
  updated_at = 5005;
}
unfolding refresh recheck_tunnel note_log probe_pending readiness_once readiness_type single_once
    Str-discrete ℕ_discrete get as_str saturating_add
web_refreshed = refl

web_stopped : (stop writing table (bytes "web")).signalled ≡ record { leader = 7 } ∷ []
unfolding stop refresh recheck_tunnel note_log probe_pending readiness_once readiness_type
    single_once lookup Str-discrete ℕ_discrete get as_str
web_stopped = refl

stop-IsOwn_example :
    All (IsOwn seen table (bytes "web")) (stop writing table (bytes "web")).signalled
stop-IsOwn_example = stop-IsOwn writing table (bytes "web")

-- The table cannot be written, and a second process is started beside the one that runs.
web_twice : (start full writing table web).spawned ≡ bytes "web" ∷ []
unfolding start get_process launch refresh recheck_tunnel note_log probe_pending readiness_once
    readiness_type single_once lookup Str-discrete ℕ_discrete get as_str
web_twice = refl

start_iff_example :
    ((start full writing table web).spawned ≡ bytes "web" ∷ [])
    ↔ ((web.argv ≢ []) × CanLaunch writing web × MaySpawn full table (bytes "web"))
start_iff_example = start_iff full writing table web

abbrev rounds : List Round
rounds = record { os = writing; instant = 1000 } ∷ record { os = full; instant = 1250 } ∷ []

wait_ready-IsEnded_example :
    IsEnded (wait_ready 1000 200 rounds table (bytes "web"))
    × IsReady (wait_ready 1000 200 rounds table (bytes "web"))
wait_ready-IsEnded_example =
    wait_ready-IsEnded 1000 200 rounds table (bytes "web") (omega arith, (omega arith, tt))
      (omega arith)
