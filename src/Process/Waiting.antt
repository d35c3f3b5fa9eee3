-- ===== src/Process/Waiting.antt =====
-- `ProcessTable::wait_ready` of crates/workbench-runtime/src/process.rs.
use distributed_workbench.Base.{
  ℕ, ◌+◌, ◌*◌, ◌≤◌, Str, bytes, Bool, true, false, not, Option, none, some, ◌≡◌, arith, Bool-cases,
  inl, inr, if◌then◌else◌, List, [], ◌∷◌, ◌++◌, Result, ok, err, leb, max, le→leb, leb→le, ◌<◌,
}
use distributed_workbench.Base.Lists.{length}
use distributed_workbench.Base.Map.{Map}
use distributed_workbench.Json.{Value, null, number, string, object, end, field, unsigned}
use distributed_workbench.Process.{
  ProcessRecord, ReadinessState, ready, unready, pending, not_configured, is_running, progress_of,
}
use distributed_workbench.Process.Table.{Os, get_process}
use distributed_workbench.Protocol.{RpcError, rpc_error}

-- One round: the answers to its `get`, and the reading of the monotonic clock after it.
pub record Round : Type 0 where
  pub os : Os
  pub instant : ℕ

abbrev number_or_null : Option ℕ → Value
number_or_null none = null
number_or_null (some n) = number (unsigned n)

unfoldable pub process_error : (code : Str) → ProcessRecord → (retryable : Bool) → RpcError
process_error code r retryable = record (rpc_error code (code ++ (bytes " for process " ++ r.id))) {
  retryable = retryable;
  details = object (
      field (bytes "lastLogProgress") (number_or_null r.last_log_progress) (
        field (bytes "lastSuccessfulProbeAt") (number_or_null r.last_successful_probe_at)
          (field (bytes "phase") (string r.phase) (field (bytes "processId") (string r.id) end))));
}

abbrev pub is_ready : ReadinessState → Bool
is_ready ready = true
is_ready pending = false
is_ready unready = false
is_ready not_configured = false

abbrev is_unready : ReadinessState → Bool
is_unready unready = true
is_unready ready = false
is_unready pending = false
is_unready not_configured = false

abbrev late : ProcessRecord → RpcError
late r =
    process_error
      (if leb (progress_of r) r.log_start_offset
        then bytes "BUILD_STALLED"
        else bytes "READINESS_MARKER_MISSING")
      r true

-- What a round says of the record it has got, if that ends the wait.
unfoldable pub verdict_of :
    (deadline instant : ℕ) → ProcessRecord → Option (Result RpcError ProcessRecord)
verdict_of deadline instant r =
    if is_ready r.readiness.state
    then some (ok r)
    else if not (is_running r.state)
    then some (err (process_error (bytes "PROCESS_EXITED") r false))
    else if is_unready r.readiness.state
    then some (err (process_error (bytes "READINESS_MARKER_MISSING") r true))
    else if leb deadline instant
    then some (err (late r))
    else none

abbrev round_verdict :
    (deadline instant : ℕ) → Result RpcError ProcessRecord → Option (Result RpcError ProcessRecord)
round_verdict deadline instant (err e) = some (err e)
round_verdict deadline instant (ok r) = verdict_of deadline instant r

abbrev or_rest :
    Option (Result RpcError ProcessRecord)
    → Option (Result RpcError ProcessRecord)
    → Option (Result RpcError ProcessRecord)
or_rest none rest = rest
or_rest (some verdict) rest = some verdict

-- The rounds of the loop; `none` where they do not end the wait.
unfoldable pub wait_rounds :
    (deadline : ℕ)
    → List Round
    → Map ProcessRecord
    → (id : Str) → Option (Result RpcError ProcessRecord)
wait_rounds deadline [] records id = none
wait_rounds deadline (round ∷ rounds) records id =
    or_rest (round_verdict deadline round.instant (get_process round.os records id).result)
      (wait_rounds deadline rounds (get_process round.os records id).records id)

unfoldable pub wait_ready :
    (started timeout_ms : ℕ)
    → List Round
    → Map ProcessRecord
    → (id : Str) → Option (Result RpcError ProcessRecord)
wait_ready started timeout_ms rounds records id =
    wait_rounds (started + max timeout_ms 1) rounds records id

-- Each round is at least the 250 milliseconds of the sleep after the round before.
abbrev pub AreSpaced : (from : ℕ) → List Round → Type 0
AreSpaced from [] = Unit {0}
AreSpaced from (round ∷ rounds) = (from ≤ round.instant) × AreSpaced (round.instant + 250) rounds

abbrev pub IsEnded : Option (Result RpcError ProcessRecord) → Type 0
IsEnded none = ⊥
IsEnded (some verdict) = Unit {0}

-- A wait succeeds only with a record that is ready.
abbrev pub IsReady : Option (Result RpcError ProcessRecord) → Type 0
IsReady none = Unit {0}
IsReady (some (err e)) = Unit {0}
IsReady (some (ok r)) = is_ready r.readiness.state ≡ true

or_rest-IsEnded :
    (o rest : Option (Result RpcError ProcessRecord)) → IsEnded rest → IsEnded (or_rest o rest)
or_rest-IsEnded none rest h = h
or_rest-IsEnded (some v) rest h = tt

or_rest-IsReady :
    (o rest : Option (Result RpcError ProcessRecord))
    → IsReady o
    → IsReady rest
    → IsReady (or_rest o rest)
or_rest-IsReady none rest h k = k
or_rest-IsReady (some v) rest h k = h

IsEnded-in_time :
    (deadline instant : ℕ) (rest : Option (Result RpcError ProcessRecord))
    (got : Result RpcError ProcessRecord)
    → deadline ≤ instant
    → IsEnded (or_rest (round_verdict deadline instant got) rest)
unfolding verdict_of
IsEnded-in_time deadline instant rest (err e) h = tt
IsEnded-in_time deadline instant rest (ok r) h = let due = le→leb deadline instant h in ground arith

verdict_of-IsReady :
    (deadline instant : ℕ) (r : ProcessRecord) → IsReady (verdict_of deadline instant r)
unfolding verdict_of
verdict_of-IsReady deadline instant r = ground arith

round_verdict-IsReady :
    (deadline instant : ℕ) (got : Result RpcError ProcessRecord)
    → IsReady (round_verdict deadline instant got)
round_verdict-IsReady deadline instant (err e) = tt
round_verdict-IsReady deadline instant (ok r) = verdict_of-IsReady deadline instant r

wait_rounds-IsReady :
    (deadline : ℕ) (rounds : List Round) (records : Map ProcessRecord) (id : Str)
    → IsReady (wait_rounds deadline rounds records id)
unfolding wait_rounds
wait_rounds-IsReady deadline [] records id = tt
wait_rounds-IsReady deadline (round ∷ rounds) records id =
    or_rest-IsReady _ _
      (round_verdict-IsReady deadline round.instant (get_process round.os records id).result)
      (wait_rounds-IsReady deadline rounds (get_process round.os records id).records id)

wait_rounds-IsEnded :
    (deadline from : ℕ) (rounds : List Round) (records : Map ProcessRecord) (id : Str)
    → AreSpaced from rounds
    → from < deadline + 250
    → deadline + 250 ≤ from + 250 * length rounds
    → IsEnded (wait_rounds deadline rounds records id)
unfolding wait_rounds
wait_rounds-IsEnded deadline from [] records id s low h = absurd (omega arith)
wait_rounds-IsEnded deadline from (round ∷ rounds) records id s low h =
    elim (Bool-cases (leb deadline round.instant)) [
      | inl due ↦
          IsEnded-in_time deadline round.instant _ (get_process round.os records id).result
            (leb→le deadline round.instant due)
      | inr early ↦
          or_rest-IsEnded
            (round_verdict deadline round.instant (get_process round.os records id).result) _
            (wait_rounds-IsEnded deadline (round.instant + 250) rounds
              (get_process round.os records id).records id s.1 (ground arith) (omega (arith, s.0)))
    ]

-- The wait ends, and it succeeds only with a record that is ready: rounds that are at least 250
-- milliseconds apart end it when they outlast the timeout by one, whatever the system answers.
pub wait_ready-IsEnded :
    (started timeout_ms : ℕ) (rounds : List Round) (records : Map ProcessRecord) (id : Str)
    → AreSpaced started rounds
    → max timeout_ms 1 + 250 ≤ 250 * length rounds
    → IsEnded (wait_ready started timeout_ms rounds records id)
      × IsReady (wait_ready started timeout_ms rounds records id)
unfolding wait_ready
wait_ready-IsEnded started timeout_ms rounds records id spaced enough = (
  wait_rounds-IsEnded (started + max timeout_ms 1) started rounds records id spaced (omega arith)
      (omega arith),
  wait_rounds-IsReady (started + max timeout_ms 1) rounds records id,
)
