-- ===== src/Resources/Permits.antt =====
-- `Resources::begin` of crates/workbench-runtime/src/resource.rs, and the permits that it grants: a
-- permit is the list of its resources.
use distributed_workbench.Base.{
  ℕ, Str, bytes, Option, none, some, Bool, false, not, ◌||◌, List, [], ◌∷◌, ◌++◌, Result, ok, err,
  ◌>>=◌, ◌>>◌, guard, map_err, if◌then◌else◌, ltb, is_some_of,
}
use distributed_workbench.Base.Lists.{is_nil}
use distributed_workbench.Base.Map.Without.{keys, remove_keys}
use distributed_workbench.Json.{Value, get}
use distributed_workbench.Lease.{validate}
use distributed_workbench.Protocol.{RpcError, rpc_error}
use distributed_workbench.Resources.{
  Resources, Store, persist, available, extend, string_param, text_of, lease_error,
}
use distributed_workbench.Schema.Lease.{Lease}
use distributed_workbench.Lease

-- `resources.sort(); resources.dedup();`
abbrev pub sorted_distinct : List Str → List Str
sorted_distinct resources = keys (extend resources [])

-- `g.get("resource").and_then(Value::as_str) == Some(resource)`
abbrev pub names : Str → Value → Bool
names key grant = is_some_of (text_of (get grant (bytes "resource"))) key

unfoldable pub find_grant : Str → List Value → Option Value
find_grant key [] = none
find_grant key (g ∷ gs) = if names key g then some g else find_grant key gs

abbrev pub runs_on : Option Lease → ℕ → Bool
runs_on none now = false
runs_on (some l) now = ltb now l.expires_at

module _ (sha : Str → Str) where
  -- The lease that is presented for a resource, or the one that stands in the way. `clock` is the
  -- reading made for the resource, by `validate` or by `begin`.
  abbrev pub check_grant :
      Resources → (clock : Str → ℕ) → Str → Option Value → Result RpcError (Unit {0})
  check_grant state clock key none =
      guard (not (runs_on (Lease.get state.table key) (clock key)))
        (rpc_error (bytes "RESOURCE_BUSY") (key ++ bytes " has an outstanding lease"))
  check_grant state clock key (some grant) = do
    owner ← string_param grant (bytes "owner")
    token ← string_param grant (bytes "token")
    map_err lease_error (validate sha state.table key owner token (clock key)) >>= λ _. ok tt

  unfoldable pub check_resource :
      Resources → (clock : Str → ℕ) → List Value → Str → Result RpcError (Unit {0})
  check_resource state clock grants key =
      available state key >> check_grant state clock key (find_grant key grants)

  unfoldable pub check_resources :
      Resources → (clock : Str → ℕ) → List Value → List Str → Result RpcError (Unit {0})
  check_resources state clock grants [] = ok tt
  check_resources state clock grants (key ∷ resources) =
      check_resource state clock grants key >> check_resources state clock grants resources

unfoldable pub in_scope : List Str → Value → Bool
in_scope [] grant = false
in_scope (key ∷ resources) grant = names key grant || in_scope resources grant

unfoldable pub check_scopes : List Str → List Value → Result RpcError (Unit {0})
check_scopes resources [] = ok tt
check_scopes resources (g ∷ gs) =
    guard (in_scope resources g) (
      rpc_error (bytes "RESOURCE_LEASE_SCOPE_MISMATCH")
        (bytes "lease does not authorize this operation"))
    >> check_scopes resources gs

abbrev pub activate : List Str → Store → Store
activate resources s = record s {
  resources = record s.resources { active = extend resources s.resources.active };
}

abbrev pub deactivate : List Str → Store → Store
deactivate resources s = record s {
  resources = record s.resources { active = remove_keys resources s.resources.active };
}

abbrev pub granted :
    List Str → Result RpcError (Unit {0}) × Store → Result RpcError (List Str) × Store
granted resources (ok _, s) = (ok resources, s)
granted resources (err e, s) = (err e, s)

module _ (sha : Str → Str) where
  -- The end of `begin`, once the checks have passed.
  unfoldable pub claim : Option Str → List Str → Store → Result RpcError (List Str) × Store
  claim io resources s =
      if is_nil resources
      then (ok resources, activate resources s)
      else granted resources (persist sha io (activate resources s))

  unfoldable pub begin :
      Store
      → (clock : Str → ℕ) (io : Option Str) (resources : List Str) → List Value
      → Result RpcError (List Str) × Store
  begin s clock io resources grants =
      let wanted = sorted_distinct resources in
      elim (check_resources sha s.resources clock grants wanted >> check_scopes wanted grants) [
        | err e ↦ (err e, s)
        | ok _ ↦ claim io wanted s
      ]

  -- `Permit::drop`
  unfoldable pub drop_permit : Option Str → List Str → Store → Store
  drop_permit io resources s =
      if is_nil resources then s else (persist sha io (deactivate resources s)).1
