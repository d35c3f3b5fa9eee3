-- ===== src/Process.antt =====
-- crates/workbench-runtime/src/process.rs: the table of managed processes. What the operating system
-- says and does during a call is a record of answers; a probe's answers are one of its fields.
pub mod Readiness
pub mod Refreshing
pub mod Signals
pub mod Starting
pub mod Table
pub mod Waiting
use distributed_workbench.Base.{
  ℕ, Str, bytes, Bool, true, false, not, ◌&&◌, ◌||◌, Option, none, some, ◌==◌, if◌then◌else◌, List,
  Result, ok, err, ltb, leb, saturating_add, is_some_of,
}
use distributed_workbench.Base.Map.{Map}
use distributed_workbench.Json.{Value, get}
use distributed_workbench.Process.Readiness.{Probed, readiness_once}
use distributed_workbench.Protocol.{RpcError}
use distributed_workbench.Resources.{text_of}

pub data ProcessState : Type 0 where
  running stopped failed : ProcessState

pub data ReadinessState : Type 0 where
  pending ready unready not_configured : ReadinessState

pub record ReadinessStatus : Type 0 where
  pub state : ReadinessState
  pub attempts : ℕ

pub record ProcessRecord : Type 0 where
  pub id : Str
  pub pid : ℕ
  pub birth_identity : Option Str
  pub identity_verified : Bool
  pub observed_at : Option ℕ
  pub cwd : Str
  pub argv : List Str
  pub env : Map Str
  pub restartable : Bool
  pub metadata : Value
  pub log_path : Str
  pub log_start_offset : ℕ
  pub state : ProcessState
  pub readiness : ReadinessStatus
  pub phase : Str
  pub last_successful_probe_at : Option ℕ
  pub last_log_progress : Option ℕ
  pub readiness_spec : Option Value
  pub readiness_deadline_at : Option ℕ
  pub started_at : ℕ
  pub updated_at : ℕ

-- One refresh: the readings of the clock in the order of the text, whether a process lives and when
-- it was born, the length of a file, and the answers to a probe.
pub record Seen : Type 0 where
  pub clock : ℕ → ℕ
  pub is_alive : ℕ → Bool
  pub birth : ℕ → Option Str
  pub length_of : Str → Option ℕ
  pub probed : Probed

abbrev pub is_running : ProcessState → Bool
is_running running = true
is_running stopped = false
is_running failed = false

abbrev pub is_pending : ReadinessState → Bool
is_pending pending = true
is_pending ready = false
is_pending unready = false
is_pending not_configured = false

-- Both identities are known, and they differ, or they are equal.
abbrev pub mismatch : Option Str → Option Str → Bool
mismatch (some expected) (some actual) = not (expected == actual)
mismatch _ _ = false

abbrev pub matched : Option Str → Option Str → Bool
matched (some expected) (some actual) = expected == actual
matched _ _ = false

abbrev is_given : Option Value → Bool
is_given none = false
is_given (some spec) = true

abbrev pub progress_of : ProcessRecord → ℕ
progress_of r = elim r.last_log_progress [ none ↦ r.log_start_offset | some n ↦ n ]

module _ (seen : Seen) where
  -- A tunnel is probed again each time.
  unfoldable pub recheck_tunnel : ProcessRecord → ProcessRecord
  recheck_tunnel r =
      if is_some_of (text_of (get r.metadata (bytes "kind"))) (bytes "tunnel")
        && (is_given r.readiness_spec && not (is_pending r.readiness.state))
      then record r { readiness = record r.readiness { state = pending } }
      else r

  abbrev grown : ProcessRecord → Option ℕ → ProcessRecord
  grown r none = r
  grown r (some n) =
      if ltb (progress_of r) n
      then record r {
        last_log_progress = some n;
        phase = bytes "BUILDING";
        updated_at = seen.clock 2;
      }
      else r

  unfoldable pub note_log : ProcessRecord → ProcessRecord
  note_log r = grown r (seen.length_of r.log_path)

  abbrev due : Option ℕ → Bool
  due none = false
  due (some deadline) = leb deadline (seen.clock 4)

  -- `readiness_spec.map(readiness_once).transpose()` and the match on it.
  abbrev settled : ProcessRecord → Option (Result RpcError Bool) → ProcessRecord
  settled r none = r
  settled r (some (err e)) = record r { readiness = record r.readiness { state = unready } }
  settled r (some (ok true)) = record r {
    readiness = record r.readiness { state = ready };
    phase = bytes "READY";
    last_successful_probe_at = some (seen.clock 3);
  }
  settled r (some (ok false)) =
      if due r.readiness_deadline_at
      then record r { readiness = record r.readiness { state = unready } }
      else r

  abbrev probe : ProcessRecord → Option (Result RpcError Bool)
  probe r = elim r.readiness_spec [
    | none ↦ none
    | some spec ↦ some (readiness_once seen.probed r.log_path r.log_start_offset spec)
  ]

  abbrev tried : ProcessRecord → ProcessRecord
  tried r = record r {
    readiness = record r.readiness { attempts = saturating_add r.readiness.attempts 1 };
  }

  unfoldable pub probe_pending : ProcessRecord → ProcessRecord
  probe_pending r =
      if is_pending r.readiness.state
      then record (settled (tried r) (probe (tried r))) { updated_at = seen.clock 5 }
      else r

  abbrev checked : ProcessRecord → ProcessRecord
  checked r =
      if matched r.birth_identity (seen.birth r.pid)
      then probe_pending (note_log (recheck_tunnel (record r { identity_verified = true })))
      else record r { identity_verified = false }

  -- A refresh of a record whose two first fields are set.
  abbrev observed : ProcessRecord → ProcessRecord
  observed r =
      if not (is_running r.state)
      then r
      else if not (seen.is_alive r.pid) || mismatch r.birth_identity (seen.birth r.pid)
      then record r { state = failed; phase = bytes "FAILED"; updated_at = seen.clock 1 }
      else checked r

  unfoldable pub refresh : ProcessRecord → ProcessRecord
  refresh r = observed (record r { observed_at = some (seen.clock 0); identity_verified = false })
