-- ===== src/Desktop/Submission.antt =====
-- Listing, `desktop.maintenance` and `desktop.submit` of crates/workbench-runtime/src/desktop.rs.
use distributed_workbench.Base.{
  ℕ, Str, bytes, Option, none, some, Bool, true, false, not, ◌&&◌, List, [], ◌∷◌, ◌++◌, Result, ok,
  err, guard, ok_or, ◌>>◌, ◌>>=◌, leb, ◌==◌,
}
use distributed_workbench.Base.Lists.{length}
use distributed_workbench.Desktop.{
  Job, DesktopQueue, Desktop, text_field, holds, no_job, find_job, save, and_then, promote,
}
use distributed_workbench.Json.{
  Value, Values, null, boolean, number, string, array, object, nil, cons, end, field, unsigned, get,
  as_u64, as_bool,
}
use distributed_workbench.Protocol.{RpcError, rpc_error}

-- What a command draws from its surroundings: the clock as a test, as the change and as `promote`
-- read it, two random identifiers, and the failures of its one or two writes.
pub record Env : Type 0 where
  pub checked : ℕ
  pub now : ℕ
  pub promoted : ℕ
  pub id_uuid : Str
  pub token_uuid : Str
  pub io : Option Str
  pub promote_io : Option Str

-- The fields of a job as JSON, up to those that stand before and behind `token`.
unfoldable pub job_value : Job → Value
job_value j = object (
    field (bytes "epoch") (number (unsigned j.epoch)) (
      field (bytes "expiresAt") (number (unsigned j.expires_at)) (
        field (bytes "id") (string j.id) (
          field (bytes "owner") (string j.owner) (
            field (bytes "requestKey") (string j.request_key) (
              field (bytes "state") (string j.state) (
                field (bytes "submittedAt") (number (unsigned j.submitted_at)) (
                  field (bytes "token") (string j.token)
                    (field (bytes "ttlMs") (number (unsigned j.ttl_ms)) end)))))))))

unfoldable pub public_job : Job → Value
public_job j = object (
    field (bytes "epoch") (number (unsigned j.epoch)) (
      field (bytes "expiresAt") (number (unsigned j.expires_at)) (
        field (bytes "id") (string j.id) (
          field (bytes "owner") (string j.owner) (
            field (bytes "requestKey") (string j.request_key) (
              field (bytes "state") (string j.state) (
                field (bytes "submittedAt") (number (unsigned j.submitted_at))
                  (field (bytes "ttlMs") (number (unsigned j.ttl_ms)) end))))))))

abbrev public_jobs : List Job → Values
public_jobs [] = nil
public_jobs (j ∷ js) = cons (public_job j) (public_jobs js)

abbrev text_value : Option Str → Value
text_value none = null
text_value (some s) = string s

abbrev is_some_text : Option Str → Bool
is_some_text none = false
is_some_text (some s) = true

-- `desktop.list`
unfoldable pub list_jobs : DesktopQueue → Value
list_jobs q = object (
    field (bytes "blocked") (boolean q.blocked) (
      field (bytes "inFlight") (boolean q.in_flight) (
        field (bytes "jobs") (array (public_jobs q.jobs)) (
          field (bytes "maintenanceOwner") (text_value q.maintenance_owner) (
            field (bytes "safePoint")
              (boolean (
                is_some_text q.maintenance_owner
                && (not q.blocked && (not q.in_flight && no_job (find_job holds q.jobs)))))
              end)))))

abbrev owned_by_another : Option Str → Str → Bool
owned_by_another none owner = false
owned_by_another (some current) owner = not (current == owner)

abbrev pub bool_of : Option Value → Option Bool
bool_of none = none
bool_of (some v) = as_bool v

abbrev keep_owner : Bool → Str → Option Str
keep_owner true owner = some owner
keep_owner false owner = none

-- `desktop.maintenance`: the new owner of the maintenance, if there is one.
unfoldable pub maintenance_owner_after : DesktopQueue → Value → Result RpcError (Option Str)
maintenance_owner_after q params = do
  owner ← text_field params (bytes "owner")
  enabled ←
      ok_or (bool_of (get params (bytes "enabled")))
        (rpc_error (bytes "INVALID_PARAMS") (bytes "enabled is required"))
  guard (not (owned_by_another q.maintenance_owner owner))
      (rpc_error (bytes "MAINTENANCE_OWNED") (bytes "another operator owns desktop maintenance"))
  ok (keep_owner enabled owner)

-- The two writes that end most commands.
abbrev pub save_and_promote :
    Env → DesktopQueue → Desktop → (Desktop → Value) → Result RpcError Value × Desktop
save_and_promote env q d answer =
    and_then (save env.io q d)
      (λ d₁. and_then (promote env.promoted env.promote_io d₁) (λ d₂. (ok (answer d₂), d₂)))

unfoldable pub maintenance : Env → Value → Desktop → Result RpcError Value × Desktop
maintenance env params d = elim (maintenance_owner_after d.queue params) [
  | err e ↦ (err e, d)
  | ok owner ↦
      save_and_promote env (record d.queue { maintenance_owner = owner }) d
        (λ d'. list_jobs d'.queue)
]

abbrev ttl_of : Option Value → ℕ
ttl_of none = 900000
ttl_of (some v) = elim (as_u64 v) [ none ↦ 900000 | some n ↦ n ]

-- The tests of `desktop.submit` on a request that is new, and the job that it makes.
unfoldable pub new_job : DesktopQueue → Env → (owner key : Str) → Value → Result RpcError Job
new_job q env owner key params = do
  guard (not (leb 10000 (length q.jobs))) (
      rpc_error (bytes "DESKTOP_QUEUE_FULL")
        (bytes "archive completed sessions before submitting more"))
  let ttl = ttl_of (get params (bytes "ttlMs"))
  guard (leb 1000 ttl && leb ttl 3600000)
      (rpc_error (bytes "INVALID_PARAMS") (bytes "ttlMs must be 1000..3600000"))
  ok (record {
    id = env.id_uuid;
    owner = owner;
    request_key = key;
    token = env.token_uuid;
    state = bytes "queued";
    epoch = 0;
    ttl_ms = ttl;
    submitted_at = env.now;
    expires_at = 0;
  })

-- `serde_json::to_value(self.jobs.last().unwrap())`
abbrev last_job : List Job → Value
last_job [] = null
last_job (j ∷ []) = job_value j
last_job (j ∷ k ∷ js) = last_job (k ∷ js)

unfoldable pub submit_new :
    Env → (owner key : Str) → Value → Desktop → Result RpcError Value × Desktop
submit_new env owner key params d = elim (new_job d.queue env owner key params) [
  | err e ↦ (err e, d)
  | ok j ↦
      save_and_promote env (record d.queue { jobs = d.queue.jobs ++ (j ∷ []) }) d
        (λ d'. last_job d'.queue.jobs)
]

abbrev pub requested_by : (owner key : Str) → Job → Bool
requested_by owner key j = j.owner == owner && j.request_key == key

abbrev pub two_fields : Value → (first second : Str) → Result RpcError (Str × Str)
two_fields params first second = do
  a ← text_field params first
  b ← text_field params second
  ok (a, b)

-- `desktop.submit`
unfoldable pub submit : Env → Value → Desktop → Result RpcError Value × Desktop
submit env params d = elim (two_fields params (bytes "owner") (bytes "requestKey")) [
  | err e ↦ (err e, d)
  | ok (owner, key) ↦ elim (find_job (requested_by owner key) d.queue.jobs) [
    | some j ↦ (ok (job_value j), d)
    | none ↦ submit_new env owner key params d
  ]
]
