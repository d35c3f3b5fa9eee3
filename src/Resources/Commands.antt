-- ===== src/Resources/Commands.antt =====
-- `Resources::command` of crates/workbench-runtime/src/resource.rs, one function for each branch.
use distributed_workbench.Base.{
  ℕ, Str, bytes, Option, none, some, Bool, true, false, not, ◌||◌, List, [], ◌∷◌, map, Result, ok,
  err, ◌>>=◌, ◌>>◌, guard, map_err, if◌then◌else◌, ltb, leb, ◌==◌, starts_with,
}
use distributed_workbench.Base.Lists.{filter}
use distributed_workbench.Base.Map.{remove}
use distributed_workbench.Base.Map.Without.{member}
use distributed_workbench.Json.{
  Value, Values, null, boolean, string, array, object, nil, cons, end, field, get, as_u64, as_bool,
}
use distributed_workbench.Lease.{LeaseTable, acquire, validate, renew, release, public}
use distributed_workbench.Protocol.{RpcError, rpc_error}
use distributed_workbench.Resources.{
  Resources, Store, Env, persist, available, string_param, text_of, lease_error, lease_value,
}
use distributed_workbench.Schema.Lease.{Lease, resource}
use distributed_workbench.Lease

abbrev text_or_empty : Option Str → Str
text_or_empty none = []
text_or_empty (some s) = s

abbrev pub lease_values : List Lease → Values
lease_values [] = nil
lease_values (l ∷ ls) = cons (lease_value l) (lease_values ls)

-- `resource.lease.list`
unfoldable pub list_leases : Resources → Value → Value
list_leases state params =
    let prefix = text_or_empty (text_of (get params (bytes "prefix"))) in
    array (
      lease_values
        (map public (filter (λ l. starts_with l.resource prefix) (Lease.snapshot state.table))))

abbrev optional_lease : Option Lease → Value
optional_lease none = null
optional_lease (some l) = lease_value (public l)

-- `resource.lease.status`
unfoldable pub lease_status : Resources → Str → Value
lease_status state key = object (
    field (bytes "active") (boolean (member key state.active)) (
      field (bytes "lease") (optional_lease (Lease.get state.table key))
        (field (bytes "quarantined") (boolean (member key state.quarantined)) end)))

abbrev is_true : Option Bool → Bool
is_true (some true) = true
is_true _ = false

abbrev bool_of : Option Value → Option Bool
bool_of none = none
bool_of (some v) = as_bool v

-- The result of a step, with the state it leaves, after `persist`.
abbrev pub answer {ℓ} :
    {A : Type ℓ} → A → Result RpcError (Unit {0}) × Store → Result RpcError A × Store
answer a (ok _, s) = (ok a, s)
answer a (err e, s) = (err e, s)

-- Whether `resource.lease.recover` may go on.
unfoldable pub may_recover : Resources → Str → Value → Result RpcError (Unit {0})
may_recover state key params = do
  guard (is_true (bool_of (get params (bytes "confirmExecutionStopped")))) (
      rpc_error (bytes "RESOURCE_RECOVERY_CONFIRMATION_REQUIRED")
        (bytes "confirm the old operation and any child process have stopped"))
  guard (not (member key state.active))
      (rpc_error (bytes "RESOURCE_BUSY") (bytes "operation is still executing"))

abbrev release_quarantine : Store → Str → Store
release_quarantine s key = record s {
  resources = record s.resources { quarantined = remove key s.resources.quarantined };
}

module _ (sha : Str → Str) where
  -- `resource.lease.recover`
  unfoldable pub recover : Store → Env → Str → Value → Result RpcError Value × Store
  recover s env key params = elim (may_recover s.resources key params) [
    | err e ↦ (err e, s)
    | ok _ ↦
        answer
          (object
            (field (bytes "recovered") (boolean true) (field (bytes "resource") (string key) end)))
          (persist sha env.io (release_quarantine s key))
  ]

abbrev ttl_of : Option Value → ℕ
ttl_of none = 300000
ttl_of (some v) = elim (as_u64 v) [ none ↦ 300000 | some n ↦ n ]

-- A change of the table whose errors are those of the caller.
abbrev lease_result :
    Result Lease.LeaseError (Lease × LeaseTable) → Result RpcError (Lease × LeaseTable)
lease_result r = map_err lease_error r

abbrev with_table : LeaseTable → Lease → Lease × LeaseTable
with_table t l = (l, t)

module _ (sha : Str → Str) where
  -- The match on the action, with the table that it leaves.
  unfoldable pub change_lease :
      Resources
      → Env
      → (action key owner : Str) (ttl : ℕ) → Value
      → Result RpcError (Lease × LeaseTable)
  change_lease state env action key owner ttl params =
      if action == bytes "resource.lease.acquire"
      then (available state key
          >> lease_result
              (acquire state.table resource key owner ttl env.now env.id_uuid env.token_uuid))
      else if action == bytes "resource.lease.validate"
      then (string_param params (bytes "token") >>= λ token.
          map_err lease_error (validate sha state.table key owner token env.checked) >>= λ l.
          ok (with_table state.table l))
      else if action == bytes "resource.lease.renew"
      then (string_param params (bytes "token") >>= λ token.
          lease_result (renew sha state.table key owner token ttl env.checked env.now))
      else if action == bytes "resource.lease.release"
      then (available state key
          >> (string_param params (bytes "token") >>= λ token.
              lease_result (release sha state.table key owner token env.checked)))
      else err (rpc_error (bytes "UNKNOWN_ACTION") action)

  -- The actions that need an owner and a time to live.
  unfoldable pub lease_change :
      Resources → Env → (action key : Str) → Value → Result RpcError (Lease × LeaseTable)
  lease_change state env action key params = do
    owner ← string_param params (bytes "owner")
    let ttl = ttl_of (get params (bytes "ttlMs"))
    guard (not (leb ttl 0 || ltb 86400000 ttl))
        (rpc_error (bytes "INVALID_PARAMS") (bytes "TTL must be between 1 ms and 24 hours"))
    change_lease state env action key owner ttl params

  abbrev store_table : Store → LeaseTable → Store
  store_table s t = record s { resources = record s.resources { table = t } }

  unfoldable pub change : Store → Env → (action key : Str) → Value → Result RpcError Value × Store
  change s env action key params = elim (lease_change s.resources env action key params) [
    | err e ↦ (err e, s)
    | ok (l, t) ↦ answer (lease_value l) (persist sha env.io (store_table s t))
  ]

  unfoldable pub command : Store → Env → (action : Str) → Value → Result RpcError Value × Store
  command s env action params =
      if action == bytes "resource.lease.list"
      then (ok (list_leases s.resources params), s)
      else elim (string_param params (bytes "resource")) [
        | err e ↦ (err e, s)
        | ok key ↦
            if action == bytes "resource.lease.status"
            then (ok (lease_status s.resources key), s)
            else if action == bytes "resource.lease.recover"
            then recover sha s env key params
            else change s env action key params
      ]
